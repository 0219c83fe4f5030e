-- ===== src/Wild/Complete.antt =====
-- Where the matcher finds every match, and the patterns on which it does not.
use oftc_blitzed.Base.{
  ℕ, ◌≡◌, refl, ◌≢◌, inl, inr, Bool, true, false, [], ◌∷◌, arith, Bytes, Bool-cases, ◌==◌, All,
  length,
}
use oftc_blitzed.Wild.{same, try_suffixes, after_star, after_any, after_byte, do_match_wild}
use oftc_blitzed.Wild.Pattern.{Matches, end, any, leave, eat, byte}

-- No star has a `?` right behind it.
abbrev pub NoStarAny : Bytes → Type 0
NoStarAny [] = Unit {0}
NoStarAny (c ∷ []) = Unit {0}
NoStarAny (c ∷ d ∷ p) = (c ≡ b'*' → d ≢ b'?') × NoStarAny (d ∷ p)

module _ (docase : Bool) where
  abbrev Complete : Bytes → (Bytes → Bool) → Type 0
  Complete p rest = (t : Bytes) → Matches docase p t → rest t ≡ true

  star_star :
      {c d : ℕ} {p s : Bytes}
      → d ≡ b'*'
      → c ≢ b'?'
      → Matches docase (c ∷ d ∷ p) s
      → c ≡ b'*'
      → Matches docase (d ∷ p) s
  star_star r n (any q m) e = absurd (n q)
  star_star r n (leave e m) f = m
  star_star r n (eat e m) f = eat r (star_star r n m f)
  star_star r n (byte q e h m) f = absurd (e f)

  -- A literal after the star: the inner loop stops at the place where the star ends, or before it.
  try_suffixes-Complete :
      {c d : ℕ} (rest : Bytes → Bool) {p s : Bytes}
      → c ≡ b'*'
      → d ≢ b'*'
      → d ≢ b'?'
      → Complete (d ∷ p) rest
      → Matches docase (c ∷ d ∷ p) s
      → try_suffixes (λ e. same docase e d) rest s ≡ true
  unfolding try_suffixes
  try_suffixes-Complete rest star n q full (any e m) = absurd (omega arith)
  try_suffixes-Complete rest star n q full (byte e f h m) = absurd (f star)
  try_suffixes-Complete rest star n q full (leave e (any f m)) = absurd (q f)
  try_suffixes-Complete rest star n q full (leave e (leave f m)) = absurd (n f)
  try_suffixes-Complete rest star n q full (leave e (eat f m)) = absurd (n f)
  try_suffixes-Complete rest star n q full (leave e (byte {d = x} {s = t} f g h m)) =
      ground (arith, full (x ∷ t) (byte f g h m))
  try_suffixes-Complete rest star n q full (eat e m) =
      ground (arith, try_suffixes-Complete rest star n q full m)

  after_star-Complete :
      {c : ℕ} (rest : Bytes → Bool) (p : Bytes) {s : Bytes}
      → c ≡ b'*'
      → NoStarAny (c ∷ p)
      → Complete p rest
      → Matches docase (c ∷ p) s
      → after_star docase p rest s ≡ true
  unfolding after_star
  after_star-Complete rest [] star w full m = refl
  after_star-Complete rest (d ∷ p) {s} star w full m = elim (Bool-cases (d == b'*')) [
    | inl e ↦ ground (arith, full s (star_star (ground arith) (omega arith) m star))
    | inr e ↦ ground (arith, try_suffixes-Complete rest star (ground arith) (w.0 star) full m)
  ]

  any_inv :
      {c : ℕ} (rest : Bytes → Bool) {p s : Bytes}
      → c ≡ b'?'
      → Complete p rest
      → Matches docase (c ∷ p) s
      → after_any rest s ≡ true
  unfolding after_any
  any_inv rest q full (any {s = t} e m) = full t m
  any_inv rest q full (leave e m) = absurd (omega arith)
  any_inv rest q full (eat e m) = absurd (omega arith)
  any_inv rest q full (byte e f h m) = absurd (e q)

  byte_inv :
      {c : ℕ} (rest : Bytes → Bool) {p s : Bytes}
      → c ≢ b'?'
      → c ≢ b'*'
      → Complete p rest
      → Matches docase (c ∷ p) s
      → after_byte docase c rest s ≡ true
  unfolding after_byte
  byte_inv rest q r full (any e m) = absurd (q e)
  byte_inv rest q r full (leave e m) = absurd (r e)
  byte_inv rest q r full (eat e m) = absurd (r e)
  byte_inv rest q r full (byte {s = t} e f h m) = ground (arith, full t m)

NoStarAny-tail : (c : ℕ) (p : Bytes) → NoStarAny (c ∷ p) → NoStarAny p
NoStarAny-tail c [] w = tt
NoStarAny-tail c (d ∷ p) w = w.1

-- On a pattern in which no `*` stands right before a `?`, `do_match_wild` answers 1 on every
-- string that matches.
pub do_match_wild_complete :
    (docase : Bool) (p s : Bytes)
    → NoStarAny p
    → Matches docase p s
    → do_match_wild docase p s ≡ true
unfolding do_match_wild
do_match_wild_complete docase [] s w end = refl
do_match_wild_complete docase (c ∷ p) s w m =
    let full : Complete docase p (do_match_wild docase p) =
      λ t n. do_match_wild_complete docase p t (NoStarAny-tail c p w) n in
    elim (Bool-cases (c == b'?')) [
      | inl q ↦ rw q (any_inv docase (do_match_wild docase p) (ground arith) full m)
      | inr q ↦ elim (Bool-cases (c == b'*')) [
        | inl r ↦
            rw (q, r)
              (after_star-Complete docase (do_match_wild docase p) p (ground arith) w full m)
        | inr r ↦
            rw (q, r)
              (byte_inv docase (do_match_wild docase p) (ground arith) (ground arith) full m)
      ]
    ]

no_hit :
    (docase : Bool) (rest : Bytes → Bool) (s : Bytes)
    → All (λ d. d ≢ b'?') s
    → try_suffixes (λ c. same docase c b'?') rest s ≡ false
unfolding try_suffixes same
no_hit docase rest [] h = refl
no_hit docase rest (d ∷ s) h = ground (arith, no_hit docase rest s h.1)

-- The pattern `*?` is meant to match every string but the empty one. On a string without a `?` of
-- its own `do_match_wild` answers 1 only if the string has exactly one byte.
pub do_match_wild-star_any :
    (docase : Bool) (s : Bytes)
    → All (λ d. d ≢ b'?') s
    → do_match_wild docase (b'*' ∷ b'?' ∷ []) s ≡ (length s == 1)
unfolding do_match_wild
do_match_wild-star_any docase [] h = refl
do_match_wild-star_any docase (d ∷ []) h = rw (no_hit docase _ (d ∷ []) h)
do_match_wild-star_any docase (d ∷ e ∷ s) h = rw (no_hit docase _ (d ∷ e ∷ s) h) (ground arith)
