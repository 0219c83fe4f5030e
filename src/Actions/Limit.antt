-- ===== src/Actions/Limit.antt =====
-- A user who tries again and again.
use oftc_blitzed.Base.{
  ℕ, zero, suc, ◌+◌, ◌%◌, ◌<◌, ◌≤◌, ◌≡◌, ◌≢◌, refl, ap, ◌∙◌, ◌⊎◌, Bool, true, false, List, [], ◌∷◌,
  arith, ◌==◌, ltb, leb, length, Bool-cases, inl, inr,
}
use oftc_blitzed.Actions.{Attempts, Config, is_forgotten, bad_password}

-- The answers to wrong passwords at given times.
pub attempts : Config → List ℕ → Attempts → List Bool
unfolding bad_password
attempts cfg [] a = []
attempts cfg (now ∷ l) a = let (a', killed) = bad_password cfg now a in killed ∷ attempts cfg l a'

-- Each time is soon enough after the one before, if there is a timeout.
abbrev pub IsClose : Config → ℕ → List ℕ → Type 0
IsClose cfg before [] = Unit {0}
IsClose cfg before (now ∷ l) =
    ((now ≤ before + cfg.timeout) ⊎ (cfg.timeout ≡ 0)) × IsClose cfg now l

-- Only the last answer is a kill.
abbrev pub last_kills : ℕ → List Bool
last_kills zero = true ∷ []
last_kills (suc n) = false ∷ last_kills n

step :
    (cfg : Config) (now : ℕ) (a : Attempts)
    → cfg.limit ≢ 0
    → a.count < 32767
    → (a.count ≡ 0) ⊎ ((now ≤ a.time + cfg.timeout) ⊎ (cfg.timeout ≡ 0))
    → bad_password cfg now a
      ≡ (record { count = a.count + 1; time = now }, leb cfg.limit (a.count + 1))
unfolding bad_password
step cfg now a o s h =
    let on : cfg.limit == 0 ≡ false = ground (arith, o) in
    let fits : (a.count + 1) % 65536 ≡ a.count + 1 = omega (arith, s) in
    let positive : ltb (a.count + 1) 32768 ≡ true = ground (arith, s) in
    elim (Bool-cases (is_forgotten cfg now a)) [
      | inr f ↦ rw (bad_password, on, f, fits, positive) refl
      | inl f ↦
          let none_yet : a.count ≡ 0 = ground (arith, f, h) in
          rw (bad_password, on, f, none_yet) refl
    ]

run :
    (cfg : Config) (now : ℕ) (l : List ℕ) (a : Attempts)
    → cfg.limit ≢ 0
    → cfg.limit < 32768
    → (a.count ≡ 0) ⊎ ((now ≤ a.time + cfg.timeout) ⊎ (cfg.timeout ≡ 0))
    → IsClose cfg now l
    → a.count + length (now ∷ l) ≡ cfg.limit
    → attempts cfg (now ∷ l) a ≡ last_kills (length l)
unfolding attempts
run cfg now [] a o s h c e =
    let enough : leb cfg.limit (a.count + 1) ≡ true = ground (arith, e) in
    ap (λ (p : Attempts × Bool). p.1 ∷ []) (step cfg now a o (omega (arith, s, e)) h)
    ∙ rw enough refl
run cfg now (t ∷ l) a o s h (w, c) e =
    let few : leb cfg.limit (a.count + 1) ≡ false = ground (arith, e) in
    let a' : Attempts = record { count = a.count + 1; time = now } in
    let rest = run cfg t l a' o s (inr w) c (omega (arith, e)) in
    ap (λ (p : Attempts × Bool). p.1 ∷ attempts cfg (t ∷ l) p.0)
      (step cfg now a o (omega (arith, s, e)) h)
    ∙ rw few (ap (λ k. false ∷ k) rest)

-- A user without wrong passwords so far gives as many as the limit allows, which is below 32768, none of
-- them later after the one before than the timeout, where there is one. The last of them, and no
-- other, has the user killed.
pub attempts-last_kills :
    (cfg : Config) (now : ℕ) (l : List ℕ) (a : Attempts)
    → a.count ≡ 0
    → cfg.limit ≡ length (now ∷ l)
    → cfg.limit < 32768
    → IsClose cfg now l
    → attempts cfg (now ∷ l) a ≡ last_kills (length l)
attempts-last_kills cfg now l a z e s c =
    run cfg now l a (omega (arith, e)) s (inl z) c (omega (arith, z, e))
