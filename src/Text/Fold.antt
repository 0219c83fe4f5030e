-- ===== src/Text/Fold.antt =====
-- Laws of the case folding and of the comparison that rests on it.
use oftc_blitzed.Base.{ℕ, ◌≡◌, refl, ◌↔◌, true, [], ◌∷◌, Ordering, arith, Bytes}
use oftc_blitzed.Text.{stricmp, is_zero, str_eq, tolower, irc_stricmp, strlower}

pub tolower-tolower : (c : ℕ) → tolower (tolower c) ≡ tolower c
unfolding tolower
tolower-tolower c = ground arith

pub strlower-strlower : (s : Bytes) → strlower (strlower s) ≡ strlower s
unfolding strlower
strlower-strlower [] = refl
strlower-strlower (c ∷ s) = rw (tolower-tolower c, strlower-strlower s) refl

-- `irc_stricmp` answers 0 exactly on the strings that `strlower` makes equal.
pub irc_stricmp-eq_iff : (s t : Bytes) → (irc_stricmp s t ≡ Ordering.eq) ↔ (strlower s ≡ strlower t)
unfolding irc_stricmp strlower
irc_stricmp-eq_iff [] [] = ground arith
irc_stricmp-eq_iff [] (d ∷ t) = ground arith
irc_stricmp-eq_iff (c ∷ s) [] = ground arith
irc_stricmp-eq_iff (c ∷ s) (d ∷ t) = ground (arith, irc_stricmp-eq_iff s t)

-- Strings that strcmp finds equal are equal to stricmp.
pub str_eq-stricmp : (s t : Bytes) → str_eq t s ≡ true → is_zero (stricmp s t) ≡ true
unfolding stricmp
str_eq-stricmp [] [] h = refl
str_eq-stricmp [] (d ∷ t) h = cc
str_eq-stricmp (c ∷ s) [] h = cc
str_eq-stricmp (c ∷ s) (d ∷ t) h = ground (arith, str_eq-stricmp s t)

-- The two comparisons of the program, for nicknames and for all else, are one.
pub irc_stricmp-stricmp : (s t : Bytes) → irc_stricmp s t ≡ stricmp s t
unfolding irc_stricmp stricmp
irc_stricmp-stricmp [] [] = refl
irc_stricmp-stricmp [] (d ∷ t) = refl
irc_stricmp-stricmp (c ∷ s) [] = refl
irc_stricmp-stricmp (c ∷ s) (d ∷ t) = rw (irc_stricmp-stricmp s t)

pub stricmp_refl : (s : Bytes) → is_zero (stricmp s s) ≡ true
unfolding stricmp
stricmp_refl [] = refl
stricmp_refl (c ∷ s) = ground (arith, stricmp_refl s)

-- Two strings that a third one equals, up to case, equal each other.
pub stricmp_trans :
    (s t u : Bytes) → is_zero (stricmp s t) ≡ true → is_zero (stricmp s u) ≡ is_zero (stricmp t u)
unfolding stricmp
stricmp_trans [] [] [] h = refl
stricmp_trans [] [] (e ∷ u) h = refl
stricmp_trans [] (d ∷ t) u h = ground arith
stricmp_trans (c ∷ s) [] u h = ground arith
stricmp_trans (c ∷ s) (d ∷ t) [] h = ground arith
stricmp_trans (c ∷ s) (d ∷ t) (e ∷ u) h = ground (arith, stricmp_trans s t u)
