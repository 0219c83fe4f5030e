-- ===== src/Wild/Pattern.antt =====
-- What it means for a string to match a pattern, with no search order in it, and what
-- `do_match_wild` has to do with it.
use oftc_blitzed.Base.{
  ℕ, ◌≡◌, ◌≢◌, inl, inr, Bool, true, [], ◌∷◌, arith, Bytes, Bool-cases, ◌&&◌, ◌==◌,
}
use oftc_blitzed.Wild.{same, try_suffixes, after_star, after_any, after_byte, do_match_wild}

pub data Matches (docase : Bool) : Bytes → Bytes → Type 0 where
  end : Matches docase [] []
  any : {c d : ℕ} {p s : Bytes} → c ≡ b'?' → Matches docase p s → Matches docase (c ∷ p) (d ∷ s)
  leave : {c : ℕ} {p s : Bytes} → c ≡ b'*' → Matches docase p s → Matches docase (c ∷ p) s
  eat :
      {c d : ℕ} {p s : Bytes} → c ≡ b'*' → Matches docase (c ∷ p) s → Matches docase (c ∷ p) (d ∷ s)
  byte :
      {c d : ℕ} {p s : Bytes}
      → c ≢ b'?'
      → c ≢ b'*'
      → same docase d c ≡ true
      → Matches docase p s
      → Matches docase (c ∷ p) (d ∷ s)

module _ (docase : Bool) where
  -- The rest of a match is sound for the pattern `p`.
  abbrev Sound : Bytes → (Bytes → Bool) → Type 0
  Sound p rest = (t : Bytes) → rest t ≡ true → Matches docase p t

  star_all : {c : ℕ} → c ≡ b'*' → (s : Bytes) → Matches docase (c ∷ []) s
  star_all e [] = leave e end
  star_all e (d ∷ s) = eat e (star_all e s)

  -- A hit of the inner loop is a suffix at which the rest of the pattern matches.
  try_suffixes-Sound :
      {c : ℕ} (hit : ℕ → Bool) (rest : Bytes → Bool) (p s : Bytes)
      → c ≡ b'*'
      → Sound p rest
      → try_suffixes hit rest s ≡ true
      → Matches docase (c ∷ p) s
  unfolding try_suffixes
  try_suffixes-Sound hit rest p [] star sound h = cc
  try_suffixes-Sound hit rest p (d ∷ s) star sound h = elim (Bool-cases (hit d && rest (d ∷ s))) [
    | inl e ↦ leave star (sound (d ∷ s) (ground arith))
    | inr e ↦ eat star (try_suffixes-Sound hit rest p s star sound (ground arith))
  ]

  after_star-Sound :
      {c : ℕ} (rest : Bytes → Bool) (p s : Bytes)
      → c ≡ b'*'
      → Sound p rest
      → after_star docase p rest s ≡ true
      → Matches docase (c ∷ p) s
  unfolding after_star
  after_star-Sound rest [] s star sound h = star_all star s
  after_star-Sound rest (d ∷ p) s star sound h =
      elim (Bool-cases (try_suffixes (λ c. same docase c d) rest s)) [
        | inl e ↦ try_suffixes-Sound _ rest (d ∷ p) s star sound e
        | inr e ↦ leave star (sound s (rw e at h))
      ]

  after_any-Sound :
      {c : ℕ} (rest : Bytes → Bool) (p s : Bytes)
      → c ≡ b'?'
      → Sound p rest
      → after_any rest s ≡ true
      → Matches docase (c ∷ p) s
  unfolding after_any
  after_any-Sound rest p [] q sound h = cc
  after_any-Sound rest p (d ∷ s) q sound h = any q (sound s h)

  after_byte-Sound :
      {c : ℕ} (rest : Bytes → Bool) (p s : Bytes)
      → c ≢ b'?'
      → c ≢ b'*'
      → Sound p rest
      → after_byte docase c rest s ≡ true
      → Matches docase (c ∷ p) s
  unfolding after_byte
  after_byte-Sound rest p [] q r sound h = cc
  after_byte-Sound {c} rest p (d ∷ s) q r sound h = byte q r (ground arith) (sound s (ground arith))

-- When `do_match_wild` answers 1, the string matches the pattern: every `*` stands for a run of
-- bytes, every `?` for one byte, and any other byte for itself, up to case if `docase` is 0.
pub do_match_wild_sound :
    (docase : Bool) (p s : Bytes) → do_match_wild docase p s ≡ true → Matches docase p s
unfolding do_match_wild
do_match_wild_sound docase [] [] h = end
do_match_wild_sound docase [] (d ∷ s) h = cc
do_match_wild_sound docase (c ∷ p) s h = elim (Bool-cases (c == b'?')) [
  | inl q ↦
      after_any-Sound docase (do_match_wild docase p) p s (ground arith)
        (do_match_wild_sound docase p) (rw q at h)
  | inr q ↦ elim (Bool-cases (c == b'*')) [
    | inl r ↦
        after_star-Sound docase (do_match_wild docase p) p s (ground arith)
          (do_match_wild_sound docase p) (rw (q, r) at h)
    | inr r ↦
        after_byte-Sound docase (do_match_wild docase p) p s (ground arith) (ground arith)
          (do_match_wild_sound docase p) (rw (q, r) at h)
  ]
]
