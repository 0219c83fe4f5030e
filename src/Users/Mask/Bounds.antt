-- ===== src/Users/Mask/Bounds.antt =====
-- The buffer of create_mask: strlen(username) + strlen(host) + 2 bytes, with the NUL.
use oftc_blitzed.Base.{
  ℕ, ◌+◌, ◌<◌, ◌≤◌, ◌≡◌, ◌≢◌, refl, ap, true, false, [], ◌∷◌, ◌++◌, Option, none, some, arith, ◌==◌,
  Bytes, codes, length, length-append, Bool-cases, Option-cases, inl, inr, ltb,
}
use oftc_blitzed.Users.Mask.{
  User, bind, behind_dot, is_none, is_address, cut, atoi, subnet, wild_host, host_mask, create_mask,
}
use oftc_blitzed.Users.Mask.Dots.{Front, subnet-Front, behind_dot-some}

abbrev the : Bytes → Option Bytes → Bytes
the d none = d
the d (some s) = s

length-Front :
    (host p : Bytes)
    → Front host p
    → ((q : Bytes) → host ≢ q ++ codes ".")
    → length p + 2 ≤ length host
length-Front host p f n = rest_not_empty f.rest f.parts
  where
    rest_not_empty : (r : Bytes) → host ≡ p ++ b'.' ∷ r → length p + 2 ≤ length host
    rest_not_empty [] e = absurd (n p e)
    rest_not_empty (c ∷ r) e = omega (arith, ap length e, length-append p (b'.' ∷ c ∷ r))

length-back :
    (c : ℕ) (s p t : Bytes) → c ≢ b'.' → c ∷ s ≡ p ++ b'.' ∷ t → length t + 2 ≤ length (c ∷ s)
length-back c s [] t n e = absurd (n (ap (first c) e))
  where
    first : ℕ → Bytes → ℕ
    first d [] = d
    first d (x ∷ l) = x
length-back c s (d ∷ p) t n e = omega (arith, ap length e, length-append p (b'.' ∷ t))

length-wild_host : (host m : Bytes) → wild_host host ≡ some m → length m ≤ length host
unfolding wild_host behind_dot
length-wild_host [] m e = omega (arith, ap (λ o. length (the [] o)) e)
length-wild_host (c ∷ s) m e = elim (Option-cases (behind_dot (c ∷ s))) [
  | inl h ↦ omega (arith, ap (λ o. length (the (c ∷ s) o)) (rw (wild_host, h) at e))
  | inr (t, h) ↦ elim (Bool-cases (is_none (behind_dot t))) [
    | inl g ↦ omega (arith, ap (λ o. length (the (c ∷ s) o)) (rw (wild_host, h, g) at e))
    | inr g ↦ elim (Bool-cases (c == b'.')) [
      | inl d ↦ absurd (cc (rw (wild_host, h, g, d) at e))
      | inr d ↦
          let (p, q) = (behind_dot-some (c ∷ s) t h).1 in
          omega (
            arith,
            length-back c s p t (ground (arith, d)) q,
            ap (λ o. length (the (c ∷ s) o)) (rw (wild_host, h, g, d) at e),
          )
    ]
  ]
]

length-host_mask :
    (host m : Bytes)
    → ((q : Bytes) → host ≢ q ++ codes ".")
    → host_mask host ≡ some m
    → length m ≤ length host
unfolding host_mask
length-host_mask host m n e = elim (Bool-cases (is_address host)) [
  | inl h ↦
      let (p, f, k) = subnet-Front host h in
      omega (
        arith,
        length-Front host p k n,
        length-append p (codes ".*"),
        ap (λ o. length (the host o)) (rw (host_mask, h, f) at e),
      )
  | inr h ↦ length-wild_host host m (rw (host_mask, h) at e)
]

bind-inv :
    (username : Bytes) (o : Option Bytes) (m : Bytes)
    → bind o (λ h. some (username ++ b'@' ∷ h)) ≡ some m
    → (h : Bytes) × (o ≡ some h) × (length m ≡ length username + 1 + length h)
bind-inv username none m e = absurd (cc)
bind-inv username (some h) m e =
    (h, refl, omega (arith, length-append username (b'@' ∷ h), ap (λ o. length (the username o)) e))

-- The mask that create_mask writes fits, with its NUL, into the strlen(username) + strlen(host) + 2
-- bytes of its buffer, unless the host ends in a dot.
pub length-create_mask :
    (u : User) (m : Bytes)
    → ((q : Bytes) → u.host ≢ q ++ codes ".")
    → create_mask u ≡ some m
    → length m < length u.username + length u.host + 2
unfolding create_mask
length-create_mask u m n e =
    let (h, f, k) = bind-inv u.username (host_mask u.host) m e in
    omega (arith, k, length-host_mask u.host h n f)

cut-end : (p : Bytes) → cut (p ++ codes ".") ≡ some p
unfolding cut
cut-end [] = refl
cut-end (c ∷ p) = rw (cut-end p) refl

subnet-end : (p : Bytes) → 192 ≤ atoi (p ++ codes ".") → subnet (p ++ codes ".") ≡ some p
unfolding subnet
subnet-end p h =
    let a : ltb (atoi (p ++ codes ".")) 192 ≡ false = ground (arith, h) in
    let b : ltb (atoi (p ++ codes ".")) 128 ≡ false = ground (arith, h) in
    rw (subnet, cut-end p, a, b) refl

-- For an address of which the number behind the last dot is missing, and that begins with 192 or
-- more, the mask without its NUL fills the buffer, so that the NUL is written behind its end.
pub create_mask-overflow :
    (username p : Bytes) (nick : Bytes)
    → is_address (p ++ codes ".") ≡ true
    → 192 ≤ atoi (p ++ codes ".")
    → (m : Bytes) × (create_mask
          (record { nick = nick; username = username; host = p ++ codes "." })
        ≡ some m)
      × (length m ≡ length username + length (p ++ codes ".") + 2)
unfolding create_mask host_mask
create_mask-overflow username p nick h k = (
  username ++ b'@' ∷ (p ++ codes ".*"),
  rw (create_mask, host_mask, h, subnet-end p k) refl,
  omega (
    arith,
    length-append username (b'@' ∷ (p ++ codes ".*")),
    length-append p (codes ".*"),
    length-append p (codes "."),
  ),
)
