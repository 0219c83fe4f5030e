-- ===== src/Users/Mask/Dots.antt =====
-- Hosts and their dots: what cutting an address leaves.
use oftc_blitzed.Base.{
  ℕ, zero, suc, ◌-◌, ◌≤◌, ◌≡◌, refl, ap, ap₂, ◌∙◌, Bool, true, false, ◌&&◌, [], ◌∷◌, ◌++◌, Option,
  none, some, arith, ◌==◌, if◌then◌else◌, Bytes, append_assoc, Bool-cases, Option-cases, inl, inr,
  ltb,
}
use oftc_blitzed.Users.Mask.{
  bind, behind_dot, all_digits, is_none, is_address, cut, atoi, cut_if, subnet,
}

abbrev pub dots : Bytes → ℕ
dots [] = 0
dots (c ∷ s) = if c == b'.' then suc (dots s) else dots s

behind_dot-none : (s : Bytes) → behind_dot s ≡ none → dots s ≡ 0
unfolding behind_dot
behind_dot-none [] e = refl
behind_dot-none (c ∷ s) e = ground (arith, e, behind_dot-none s)

-- The string up to the first dot, and behind it.
pub behind_dot-some :
    (s t : Bytes)
    → behind_dot s ≡ some t
    → (dots s ≡ suc (dots t)) × ((p : Bytes) × (s ≡ p ++ b'.' ∷ t))
unfolding behind_dot
behind_dot-some [] t e = absurd (cc)
behind_dot-some (c ∷ s) t e = elim (Bool-cases (c == b'.')) [
  | inl h ↦ rw h (
      let q : s ≡ t = ground (arith, rw h at e) in
      (ap (λ x. suc (dots x)) q, ([], ap₂ (λ a b. a ∷ b) (ground (arith, h)) q)))
  | inr h ↦
      rw h (let r = behind_dot-some s t (rw h at e) in (r.0, (c ∷ r.1.0, ap (λ x. c ∷ x) r.1.1)))
]

-- What a cut takes off.
pub record Cut (s p : Bytes) : Type 0 where
  pub rest : Bytes
  pub parts : s ≡ p ++ b'.' ∷ rest
  pub fewer : dots s ≡ suc (dots p)

cut-no_dots : (s : Bytes) → dots s ≡ 0 → cut s ≡ none
unfolding cut
cut-no_dots [] e = refl
cut-no_dots (c ∷ s) e = ground (arith, e, cut-no_dots s)

further :
    (c : ℕ) (s : Bytes)
    → (p : Bytes) × (cut s ≡ some p) × Cut s p
    → (p : Bytes) × (cut (c ∷ s) ≡ some p) × Cut (c ∷ s) p
unfolding cut
further c s (p, e, k) = (
  c ∷ p,
  rw e refl,
  record { rest = k.rest; parts = ap (λ x. c ∷ x) k.parts; fewer = ground (arith, k.fewer) },
)

last_dot :
    (c : ℕ) (s : Bytes)
    → (c == b'.') ≡ true
    → dots s ≡ 0
    → (p : Bytes) × (cut (c ∷ s) ≡ some p) × Cut (c ∷ s) p
unfolding cut
last_dot c s h e = (
  [],
  rw (cut-no_dots s e, h) refl,
  record { rest = s; parts = ap (λ d. d ∷ s) (ground (arith, h)); fewer = ground (arith, h, e) },
)

-- A string with a dot can be cut.
pub cut-Cut : (n : ℕ) (s : Bytes) → dots s ≡ suc n → (p : Bytes) × (cut s ≡ some p) × Cut s p
cut-Cut n [] e = absurd (omega (arith, e))
cut-Cut zero (c ∷ s) e = elim (Bool-cases (c == b'.')) [
  | inl h ↦ last_dot c s h (ground (arith, e, h))
  | inr h ↦ further c s (cut-Cut zero s (rw h at e))
]
cut-Cut (suc n) (c ∷ s) e = elim (Bool-cases (c == b'.')) [
  | inl h ↦ further c s (cut-Cut n s (ground (arith, e, h)))
  | inr h ↦ further c s (cut-Cut (suc n) s (rw h at e))
]

-- The last test of is_address, on what is behind the third dot.
abbrev last_part : Option Bytes → Bool
last_part none = false
last_part (some s) = is_none (behind_dot s)

dots-last : (o : Option Bytes) → last_part o ≡ true → (s : Bytes) × (o ≡ some s) × (dots s ≡ 0)
dots-last none h = absurd (cc)
dots-last (some s) h = elim (Option-cases (behind_dot s)) [
  | inl e ↦ (s, refl, behind_dot-none s e)
  | inr (t, e) ↦ absurd (ground (arith, rw e at h))
]

bind-some :
    (o : Option Bytes) (s : Bytes)
    → bind o behind_dot ≡ some s
    → (t : Bytes) × (o ≡ some t) × (dots t ≡ suc (dots s))
bind-some none s e = absurd (cc)
bind-some (some t) s e = (t, refl, (behind_dot-some t s e).0)

and_right : (a b : Bool) → (a && b) ≡ true → b ≡ true
and_right true b h = h
and_right false b h = absurd (cc)

is_address-dots : (host : Bytes) → is_address host ≡ true → dots host ≡ 3
unfolding is_address
is_address-dots host h =
    let (s, e, z) =
      dots-last (bind (bind (behind_dot host) behind_dot) behind_dot)
        (and_right (all_digits host) _ h) in
    let (t, f, n) = bind-some (bind (behind_dot host) behind_dot) s e in
    let (u, g, m) = bind-some (behind_dot host) t f in
    omega (arith, (behind_dot-some host u g).0, m, n, z)

-- A part of an address, up to one of its dots.
pub record Front (s p : Bytes) : Type 0 where
  pub rest : Bytes
  pub parts : s ≡ p ++ b'.' ∷ rest

Cut-Front : {s p : Bytes} → Cut s p → Front s p
Cut-Front k = record { rest = k.rest; parts = k.parts }

Front-Cut : {s p q : Bytes} → Front s p → Cut p q → Front s q
Front-Cut {s} {p} {q} f k = record {
  rest = k.rest ++ b'.' ∷ f.rest;
  parts =
      f.parts
      ∙ ap (λ x. x ++ b'.' ∷ f.rest) k.parts
      ∙ append_assoc q (b'.' ∷ k.rest) (b'.' ∷ f.rest);
}

cut_if-Front :
    (b : Bool) (n : ℕ) {s p : Bytes}
    → Front s p
    → dots p ≡ suc n
    → (q : Bytes) × (cut_if b p ≡ some q) × Front s q × (n ≤ dots q)
cut_if-Front true n {s} {p} f e =
    let (q, c, k) = cut-Cut n p e in (q, c, Front-Cut f k, omega (arith, e, k.fewer))
cut_if-Front false n {s} {p} f e = (p, refl, f, omega (arith, e))

pub subnet-Front :
    (host : Bytes) → is_address host ≡ true → (p : Bytes) × (subnet host ≡ some p) × Front host p
unfolding subnet
subnet-Front host h =
    let (p, c, k) = cut-Cut 2 host (is_address-dots host h) in
    let (q, d, f, n) =
      cut_if-Front (ltb (atoi host) 192) 1 (Cut-Front k)
        (omega (arith, k.fewer, is_address-dots host h)) in
    let (r, e, g, m) = cut_if-Front (ltb (atoi host) 128) (dots q - 1) f (omega (arith, n)) in
    (r, rw (subnet, c, d) e, g)
