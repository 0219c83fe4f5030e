-- ===== src/Servers/Siblings.antt =====
-- The chain of the children of a hub, and a child that is taken out of it.
use oftc_blitzed.Base.{
  ℕ, zero, suc, ◌<◌, ◌≡◌, refl, sym, ap, subst, ◌∙◌, true, false, List, [], ◌∷◌, Option, none, some,
  arith, ◌==◌, mem, length, Bool-cases, inl, inr,
}
use oftc_blitzed.Servers.{Server, Servers, put, remove, unlink_from, unlink}
use oftc_blitzed.Servers.Forest.{Distinct, mem-other}

-- The chain of `sibling` from a pointer.
abbrev pub Siblings : (ℕ → Option Server) → Option ℕ → List ℕ → Type 0
Siblings node o [] = o ≡ none
Siblings node o (x ∷ l) =
    (o ≡ some x) × ((s : Server) × (node x ≡ some s) × Siblings node s.sibling l)

pub Siblings-node :
    (node node' : ℕ → Option Server) (o : Option ℕ) (l : List ℕ)
    → ((x : ℕ) → mem x l ≡ true → node' x ≡ node x)
    → Siblings node o l
    → Siblings node' o l
Siblings-node node node' o [] h f = f
Siblings-node node node' o (x ∷ l) h (e, (s, p, f)) = (
  e,
  (
    s,
    h x (ground arith) ∙ p,
    Siblings-node node node' s.sibling l (λ y m. h y (ground (arith, m))) f,
  ),
)

pub put-other :
    (t b : ℕ) (s : Option Server) (c : Servers) → (b == t) ≡ false → (put t s c).node b ≡ c.node b
unfolding put
put-other t b s c n = rw n refl

pub put-same : (t : ℕ) (s : Option Server) (c : Servers) → (put t s c).node t ≡ s
unfolding put
put-same t s c = ground arith

-- A write in front of a chain.
pub stay :
    (x t : ℕ) (k : List ℕ) (c : Servers) (s : Option Server) (o : Option ℕ)
    → mem t (x ∷ k) ≡ false
    → Siblings c.node o k
    → Siblings (put t s c).node o k
stay x t k c s o d f =
    Siblings-node c.node (put t s c).node o k
      (λ y m. put-other t y s c (mem-other t y k (ground (arith, d)) m)) f

record Unlinked (c : Servers) (t a : ℕ) (k : List ℕ) (c' : Servers) : Type 0 where
  chain : Siblings c'.node (some t) (t ∷ remove a k)
  others : (b : ℕ) → mem b (t ∷ k) ≡ false → c'.node b ≡ c.node b
  target : c'.node a ≡ c.node a

unlink_from-Unlinked :
    (fuel a t : ℕ) (c : Servers) (k : List ℕ)
    → Siblings c.node (some t) (t ∷ k)
    → mem a k ≡ true
    → Distinct (t ∷ k)
    → length k < fuel
    → (c' : Servers) × (unlink_from fuel a t c ≡ some c') × Unlinked c t a k c'
unfolding unlink_from remove
unlink_from-Unlinked zero a t c k f m d p = absurd (omega (arith, p))
unlink_from-Unlinked (suc n) a t c [] f m d p = absurd (cc)
unlink_from-Unlinked (suc n) a t c (x ∷ k) (e, (s, at, (q, (xs, ax, f)))) m (d, (dx, dk)) p =
    elim (Bool-cases (x == a)) [
      | inl h ↦
          let r : x ≡ a = ground (arith, h) in
          let new = record s { sibling = xs.sibling } in
          (
            put t (some new) c,
            rw (unlink_from, at, q, h, sym (ap c.node r) ∙ ax) refl,
            record {
              chain = (
                refl,
                (new, put-same t (some new) c, rw h (stay x t k c (some new) xs.sibling d f)),
              );
              others = λ b g. put-other t b (some new) c (ground (arith, g));
              target = put-other t a (some new) c (mem-other t a (x ∷ k) d m);
            },
          )
      | inr h ↦
          let (c', u, l) =
            unlink_from-Unlinked n a x c k (refl, (xs, ax, f)) (rw h at m) (dx, dk)
              (omega (arith, p)) in
          (
            c',
            rw (unlink_from, at, q, h) u,
            record {
              chain = (
                refl,
                (
                  s,
                  l.others t d ∙ at,
                  rw h (subst (λ o. Siblings c'.node o (x ∷ remove a k)) (sym q) l.chain),
                ),
              );
              others = λ b g. l.others b (ground (arith, g));
              target = l.target;
            },
          )
    ]

-- What `hub` and its children are when `a` is no longer one of them.
pub record HasLost (c : Servers) (hub a : ℕ) (k : List ℕ) (c' : Servers) : Type 0 where
  pub hub' : Server
  pub at_hub : c'.node hub ≡ some hub'
  pub children : Siblings c'.node hub'.child (remove a k)
  pub others : (b : ℕ) → mem b (hub ∷ k) ≡ false → c'.node b ≡ c.node b
  pub target : c'.node a ≡ c.node a

pub unlink-HasLost :
    (fuel hub a : ℕ) (c : Servers) (h : Server) (k : List ℕ)
    → c.node hub ≡ some h
    → Siblings c.node h.child k
    → mem a k ≡ true
    → Distinct (hub ∷ k)
    → length k < fuel
    → (c' : Servers) × (unlink fuel hub a c ≡ some c') × HasLost c hub a k c'
unfolding unlink remove
unlink-HasLost fuel hub a c h [] e f m d p = absurd (cc)
unlink-HasLost fuel hub a c h (x ∷ k) e (q, (s, ax, f)) m (d, (dx, dk)) p =
    elim (Bool-cases (x == a)) [
      | inl g ↦
          let r : x ≡ a = ground (arith, g) in
          let new = record h { child = s.sibling } in
          (
            put hub (some new) c,
            rw (unlink, e, q, g, sym (ap c.node r) ∙ ax) refl,
            record {
              hub' = new;
              at_hub = put-same hub (some new) c;
              children = rw g (stay x hub k c (some new) s.sibling d f);
              others = λ b n. put-other hub b (some new) c (ground (arith, n));
              target = put-other hub a (some new) c (mem-other hub a (x ∷ k) d m);
            },
          )
      | inr g ↦
          let (c', u, l) =
            unlink_from-Unlinked fuel a x c k (refl, (s, ax, f)) (rw g at m) (dx, dk)
              (omega (arith, p)) in
          (
            c',
            rw (unlink, e, q, g) u,
            record {
              hub' = h;
              at_hub = l.others hub d ∙ e;
              children = rw (g) (subst (λ o. Siblings c'.node o (x ∷ remove a k)) (sym q) l.chain);
              others = λ b n. l.others b (ground (arith, n));
              target = l.target;
            },
          )
    ]
