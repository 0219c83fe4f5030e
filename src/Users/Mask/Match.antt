-- ===== src/Users/Mask/Match.antt =====
-- Masks that are put together from their parts, with a nick or without one.
use oftc_blitzed.Base.{
  ℕ, ◌≡◌, ◌≢◌, refl, Bool, true, false, ◌&&◌, [], ◌∷◌, ◌++◌, Option, none, some, arith, Bytes, All,
}
use oftc_blitzed.Text.{strlower}
use oftc_blitzed.Wild.{match_wild}
use oftc_blitzed.Users.Mask.{
  User, word_of, after_word, skip, strtok, strtok_rest, has, match_parts, match_usermask, or_star,
  first_part, split_usermask,
}

abbrev pub Free : ℕ → Bytes → Type 0
Free d = All (λ c. c ≢ d)

abbrev pub IsToken : ℕ → Bytes → Type 0
IsToken d [] = ⊥
IsToken d (c ∷ s) = Free d (c ∷ s)

has-Free : (d : ℕ) (s : Bytes) → Free d s → has d s ≡ false
unfolding has
has-Free d [] f = refl
has-Free d (c ∷ s) (n, f) = ground (arith, n, has-Free d s f)

has-middle : (d : ℕ) (s r : Bytes) → has d (s ++ d ∷ r) ≡ true
unfolding has
has-middle d [] r = ground arith
has-middle d (c ∷ s) r = ground (arith, has-middle d s r)

word_of-middle : (d : ℕ) (s r : Bytes) → Free d s → word_of d (s ++ d ∷ r) ≡ s
unfolding word_of
word_of-middle d [] r f = ground arith
word_of-middle d (c ∷ s) r (n, f) = ground (arith, n, word_of-middle d s r f)

after_word-middle : (d : ℕ) (s r : Bytes) → Free d s → after_word d (s ++ d ∷ r) ≡ r
unfolding after_word
after_word-middle d [] r f = ground arith
after_word-middle d (c ∷ s) r (n, f) = ground (arith, n, after_word-middle d s r f)

word_of-Free : (d : ℕ) (s : Bytes) → Free d s → word_of d s ≡ s
unfolding word_of
word_of-Free d [] f = refl
word_of-Free d (c ∷ s) (n, f) = ground (arith, n, word_of-Free d s f)

after_word-Free : (d : ℕ) (s : Bytes) → Free d s → after_word d s ≡ []
unfolding after_word
after_word-Free d [] f = refl
after_word-Free d (c ∷ s) (n, f) = ground (arith, n, after_word-Free d s f)

skip-other : (d c : ℕ) (s : Bytes) → c ≢ d → skip d (c ∷ s) ≡ c ∷ s
unfolding skip
skip-other d c s n = ground (arith, n)

pub strtok-middle : (d : ℕ) (s r : Bytes) → IsToken d s → strtok d (s ++ d ∷ r) ≡ (some s, r)
unfolding strtok
strtok-middle d [] r f = absurd f
strtok-middle d (c ∷ s) r f =
    rw
      (
        strtok,
        skip-other d c (s ++ d ∷ r) f.0,
        word_of-middle d (c ∷ s) r f,
        after_word-middle d (c ∷ s) r f,
      )
      refl

pub strtok-whole : (d : ℕ) (s : Bytes) → IsToken d s → strtok d s ≡ (some s, [])
unfolding strtok
strtok-whole d [] f = absurd f
strtok-whole d (c ∷ s) f =
    rw (strtok, skip-other d c s f.0, word_of-Free d (c ∷ s) f, after_word-Free d (c ∷ s) f) refl

-- The parts of a mask as they stand in a text.
abbrev pub print_mask : Option Bytes → Bytes → Bytes → Bytes
print_mask none username host = username ++ b'@' ∷ host
print_mask (some nick) username host = nick ++ b'!' ∷ (username ++ b'@' ∷ host)

abbrev pub IsHost : Bytes → Type 0
IsHost [] = ⊥
IsHost (c ∷ s) = Unit {0}

-- No part is empty, and none holds the byte that ends it; without a nick there is no `!` at all.
abbrev pub IsMask : Option Bytes → Bytes → Bytes → Type 0
IsMask none username host =
    IsToken b'@' username × Free b'!' username × Free b'!' host × IsHost host
IsMask (some nick) username host = IsToken b'!' nick × IsToken b'@' username × IsHost host

abbrev pub nick_matches : Option Bytes → User → Bool
nick_matches none u = true
nick_matches (some nick) u = match_wild (strlower nick) (strlower u.nick)

Free-append : (d : ℕ) (s t : Bytes) → Free d s → Free d t → Free d (s ++ t)
Free-append d [] t f g = g
Free-append d (c ∷ s) t (p, f) g = (p, Free-append d s t f g)

pub strtok_rest-IsHost : (h : Bytes) → IsHost h → strtok_rest h ≡ some h
strtok_rest-IsHost [] f = absurd f
strtok_rest-IsHost (c ∷ h) f = refl

no_bang : (username host : Bytes) → IsMask none username host → Free b'!' (username ++ b'@' ∷ host)
no_bang username host (t, f, g, h) =
    Free-append b'!' username (b'@' ∷ host) f ((λ e. omega (arith, e)), g)

no_nick :
    (username host : Bytes) → IsMask none username host → has b'!' (username ++ b'@' ∷ host) ≡ false
no_nick username host v = has-Free b'!' (username ++ b'@' ∷ host) (no_bang username host v)

-- A mask that is put together from its parts, with a nick or without one, none of
-- them empty or with the byte that ends it, covers a user exactly if each part matches: the nick and the host of both in lower case, the username as it is.
pub match_usermask-print_mask :
    (nick : Option Bytes) (username host : Bytes) (u : User)
    → IsMask nick username host
    → match_usermask (print_mask nick username host) u
      ≡ some (
          nick_matches nick u
          && (match_wild username u.username && match_wild (strlower host) (strlower u.host)))
unfolding match_usermask match_parts
match_usermask-print_mask none username host u v =
    rw
      (
        match_usermask,
        no_nick username host v,
        strtok-middle b'@' username host v.0,
        strtok_rest-IsHost host v.3,
        match_parts,
      )
      refl
match_usermask-print_mask (some nick) username host u (n, t, h) =
    rw
      (
        match_usermask,
        has-middle b'!' nick (username ++ b'@' ∷ host),
        strtok-middle b'!' nick (username ++ b'@' ∷ host) n,
        strtok-middle b'@' username host t,
        strtok_rest-IsHost host h,
        match_parts,
      )
      refl

is_token :
    (username host : Bytes) → IsMask none username host → IsToken b'!' (username ++ b'@' ∷ host)
is_token [] host v = absurd v.0
is_token (c ∷ s) host v = no_bang (c ∷ s) host v

first_part-Free : (d : ℕ) (s : Bytes) → Free d s → first_part d s ≡ s
unfolding first_part
first_part-Free d [] f = refl
first_part-Free d (c ∷ s) f = ground (arith, f.0, word_of-Free d (c ∷ s) f)

-- split_usermask takes a mask apart into the parts that it was put together from, none of
-- them empty or with the byte that ends it, with a star for a nick that is not there.
pub split_usermask-print_mask :
    (nick : Option Bytes) (username host : Bytes)
    → IsMask nick username host
    → split_usermask (print_mask nick username host) ≡ (or_star nick, username, host)
unfolding split_usermask strtok skip
split_usermask-print_mask none username host v =
    rw
      (
        split_usermask,
        strtok-whole b'!' (username ++ b'@' ∷ host) (is_token username host v),
        has-middle b'@' username host,
        first_part-Free b'!' (username ++ b'@' ∷ host) (no_bang username host v),
        strtok-middle b'@' username host v.0,
        strtok_rest-IsHost host v.3,
      )
      refl
split_usermask-print_mask (some nick) username host (n, t, h) =
    rw
      (
        split_usermask,
        strtok-middle b'!' nick (username ++ b'@' ∷ host) n,
        strtok-middle b'@' username host t,
        strtok_rest-IsHost host h,
      )
      refl
