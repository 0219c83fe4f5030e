-- ===== src/Users/Mask/Create.antt =====
-- What create_mask makes of an address or a name.
use oftc_blitzed.Base.{
  ℕ, ◌≡◌, ◌≢◌, refl, sym, subst, ◌∙◌, true, false, [], ◌∷◌, ◌++◌, none, some, arith, ◌==◌, Bytes,
  codes, All, Bool-cases, Option-cases, inl, inr,
}
use oftc_blitzed.Text.{strlower, tolower}
use oftc_blitzed.Wild.{match_wild, same}
use oftc_blitzed.Wild.Pattern.{Matches, end, leave, eat, byte}
use oftc_blitzed.Wild.Complete.{NoStarAny, do_match_wild_complete}
use oftc_blitzed.Users.Mask.{
  User, match_usermask, behind_dot, is_none, is_address, wild_host, host_mask, create_mask,
}
use oftc_blitzed.Users.Mask.Match.{Free, IsToken, IsHost, match_usermask-print_mask}
use oftc_blitzed.Users.Mask.Dots.{Front, subnet-Front, behind_dot-some}

-- Nothing in the string means something else in a mask.
abbrev pub IsLiteral : Bytes → Type 0
IsLiteral = All (λ c. (c ≢ b'*') × (c ≢ b'?') × (c ≢ b'!'))

tolower-literal : (c : ℕ) → c ≢ b'*' → c ≢ b'?' → (tolower c ≢ b'*') × (tolower c ≢ b'?')
unfolding tolower
tolower-literal c f g = ((λ e. ground (arith, e, f)), (λ e. ground (arith, e, g)))

same_self : (c : ℕ) → same true c c ≡ true
unfolding same
same_self c = ground arith

abbrev Lower : Bytes → Bytes → Type 0
Lower p s = Matches true (strlower p) (strlower s)

literal_byte :
    (c : ℕ) (p s : Bytes) → (c ≢ b'*') × (c ≢ b'?') × (c ≢ b'!') → Lower p s → Lower (c ∷ p) (c ∷ s)
unfolding strlower
literal_byte c p s (f, g, h) m =
    let l = tolower-literal c f g in byte l.1 l.0 (same_self (tolower c)) m

Lower-self : (s : Bytes) → IsLiteral s → Lower s s
unfolding strlower
Lower-self [] f = end
Lower-self (c ∷ s) (l, f) = literal_byte c s s l (Lower-self s f)

star_any : (s : Bytes) → Matches true (codes "*") s
star_any [] = leave refl end
star_any (c ∷ s) = eat refl (star_any s)

-- A front of an address with a star for the rest.
Lower-front : (p r : Bytes) → IsLiteral (p ++ b'.' ∷ r) → Lower (p ++ codes ".*") (p ++ b'.' ∷ r)
unfolding strlower tolower
Lower-front [] r (l, f) =
    byte (λ e. omega (arith, e)) (λ e. omega (arith, e)) (same_self b'.') (star_any (strlower r))
Lower-front (c ∷ p) r (l, f) =
    literal_byte c (p ++ codes ".*") (p ++ b'.' ∷ r) l (Lower-front p r f)

-- A star in the place of the front of a name.
Lower-back : (p t : Bytes) → Lower t t → Lower (b'*' ∷ t) (p ++ t)
unfolding strlower tolower
Lower-back [] t m = leave refl m
Lower-back (c ∷ p) t m = eat refl (Lower-back p t m)

IsLiteral-back : (p t : Bytes) → IsLiteral (p ++ t) → IsLiteral t
IsLiteral-back [] t f = f
IsLiteral-back (c ∷ p) t (l, f) = IsLiteral-back p t f

IsLiteral-front : (p t : Bytes) → IsLiteral (p ++ t) → IsLiteral p
IsLiteral-front [] t f = tt
IsLiteral-front (c ∷ p) t (l, f) = (l, IsLiteral-front p t f)

Free-literal : (s : Bytes) → IsLiteral s → Free b'?' s × Free b'!' s
Free-literal [] f = (tt, tt)
Free-literal (c ∷ s) ((x, y, z), f) = let r = Free-literal s f in ((y, r.0), (z, r.1))

Free-NoStarAny : (s : Bytes) → Free b'?' s → NoStarAny s
Free-NoStarAny [] f = tt
Free-NoStarAny (c ∷ []) f = tt
Free-NoStarAny (c ∷ d ∷ s) (n, (m, f)) = ((λ e. m), Free-NoStarAny (d ∷ s) (m, f))

Free-strlower : (s : Bytes) → Free b'?' s → Free b'?' (strlower s)
unfolding strlower tolower
Free-strlower [] f = tt
Free-strlower (c ∷ s) (n, f) = ((λ e. ground (arith, e, n)), Free-strlower s f)

-- A mask for a host that covers it.
record IsWide (host m : Bytes) : Type 0 where
  full : IsHost m
  plain : Free b'?' m × Free b'!' m
  covers : Lower m host

Free-snoc : (d : ℕ) (s t : Bytes) → Free d s → Free d t → Free d (s ++ t)
Free-snoc d [] t f g = g
Free-snoc d (c ∷ s) t (n, f) g = (n, Free-snoc d s t f g)

IsHost-snoc : (s t : Bytes) → IsHost t → IsHost (s ++ t)
IsHost-snoc [] t h = h
IsHost-snoc (c ∷ s) t h = tt

subnet-IsWide : (host p : Bytes) → IsLiteral host → Front host p → IsWide host (p ++ codes ".*")
subnet-IsWide host p l f =
    let l' = subst IsLiteral f.parts l in
    let (a, b) = Free-literal p (IsLiteral-front p (b'.' ∷ f.rest) l') in
    record {
      full = IsHost-snoc p (codes ".*") tt;
      plain = (
        Free-snoc b'?' p (codes ".*") a ((λ e. omega (arith, e)), ((λ e. omega (arith, e)), tt)),
        Free-snoc b'!' p (codes ".*") b ((λ e. omega (arith, e)), ((λ e. omega (arith, e)), tt)),
      );
      covers = subst (Lower (p ++ codes ".*")) (sym f.parts) (Lower-front p f.rest l');
    }

self-IsWide : (host : Bytes) → IsHost host → IsLiteral host → IsWide host host
self-IsWide host h l = record { full = h; plain = Free-literal host l; covers = Lower-self host l }

-- The host does not begin with a dot.
abbrev pub IsName : Bytes → Type 0
IsName [] = ⊥
IsName (c ∷ s) = c ≢ b'.'

IsName-IsHost : (host : Bytes) → IsName host → IsHost host
IsName-IsHost [] n = n
IsName-IsHost (c ∷ s) n = tt

back-IsWide : (p t : Bytes) → IsLiteral (p ++ b'.' ∷ t) → IsWide (p ++ b'.' ∷ t) (b'*' ∷ b'.' ∷ t)
back-IsWide p t l =
    let l' = IsLiteral-back p (b'.' ∷ t) l in
    let (a, b) = Free-literal (b'.' ∷ t) l' in
    record {
      full = tt;
      plain = (((λ e. omega (arith, e)), a), ((λ e. omega (arith, e)), b));
      covers = Lower-back p (b'.' ∷ t) (Lower-self (b'.' ∷ t) l');
    }

wild_host-IsWide :
    (host : Bytes)
    → IsName host
    → IsLiteral host
    → (m : Bytes) × (wild_host host ≡ some m) × IsWide host m
unfolding wild_host
wild_host-IsWide [] n l = absurd n
wild_host-IsWide (c ∷ s) n l = elim (Option-cases (behind_dot (c ∷ s))) [
  | inl e ↦ (c ∷ s, rw (wild_host, e) refl, self-IsWide (c ∷ s) tt l)
  | inr (t, e) ↦ elim (Bool-cases (is_none (behind_dot t))) [
    | inl h ↦ (c ∷ s, rw (wild_host, e, h) refl, self-IsWide (c ∷ s) tt l)
    | inr h ↦
        let (p, q) = (behind_dot-some (c ∷ s) t e).1 in
        let g : (c == b'.') ≡ false = ground (arith, n) in
        (
          b'*' ∷ b'.' ∷ t,
          rw (wild_host, e, h, g) refl,
          subst (λ x. IsWide x (b'*' ∷ b'.' ∷ t)) (sym q) (back-IsWide p t (subst IsLiteral q l)),
        )
  ]
]

host_mask-IsWide :
    (host : Bytes)
    → IsName host
    → IsLiteral host
    → (m : Bytes) × (host_mask host ≡ some m) × IsWide host m
unfolding host_mask
host_mask-IsWide host n l = elim (Bool-cases (is_address host)) [
  | inl h ↦
      let (p, e, f) = subnet-Front host h in
      (p ++ codes ".*", rw (host_mask, h, e) refl, subnet-IsWide host p l f)
  | inr h ↦ let (m, e, w) = wild_host-IsWide host n l in (m, rw (host_mask, h) e, w)
]

-- Masks and strings in which no star comes before a `?`.
wide_match : (p s : Bytes) → Free b'?' p → Lower p s → match_wild (strlower p) (strlower s) ≡ true
unfolding match_wild
wide_match p s f m =
    do_match_wild_complete true (strlower p) (strlower s)
      (Free-NoStarAny (strlower p) (Free-strlower p f)) m

exact : (s : Bytes) → IsLiteral s → Matches true s s
exact [] l = end
exact (c ∷ s) (l, f) = byte l.1 l.0 (same_self c) (exact s f)

own_name : (s : Bytes) → IsLiteral s → match_wild s s ≡ true
unfolding match_wild
own_name s l = do_match_wild_complete true s s (Free-NoStarAny s (Free-literal s l).0) (exact s l)

-- create_mask returns a mask, and match_usermask finds that it covers the user, address or name,
-- if neither the username nor the host has a byte of its own meaning in masks, the username is not
-- empty and has no `@`, and the host is not empty and does not begin with a dot.
pub match_usermask-create_mask :
    (u : User)
    → IsToken b'@' u.username
    → IsLiteral u.username
    → IsName u.host
    → IsLiteral u.host
    → (m : Bytes) × (create_mask u ≡ some m) × (match_usermask m u ≡ some true)
unfolding create_mask
match_usermask-create_mask u t l n k =
    let (h, e, w) = host_mask-IsWide u.host n k in
    let r =
      match_usermask-print_mask none u.username h u
        (t, (Free-literal u.username l).1, w.plain.1, w.full) in
    (
      u.username ++ b'@' ∷ h,
      rw (create_mask, e) refl,
      r ∙ rw (own_name u.username l, wide_match h u.host w.plain.0 w.covers) refl,
    )
