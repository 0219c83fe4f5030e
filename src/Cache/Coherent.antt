-- ===== src/Cache/Coherent.antt =====
-- The cache as a map from nick IDs to what is stored for them.
use oftc_blitzed.Base.{
  ==_iff, ℕ, ◌+◌, ◌<◌, ◌≡◌, ◌≢◌, refl, sym, ap, subst, ◌∙◌, true, false, List, [], ◌∷◌, none, some,
  arith, ◌==◌, if◌then◌else◌, ltb, mem, All, inl, inr, Bool-cases,
}
use oftc_blitzed.Cache.{Node, Cache, hash, put, link, smalloc}
use oftc_blitzed.Cache.Chain.{
  Segment, Rising, entry_in, Same, Segment-Same, Rising-Same, IsCache, entry,
}
use oftc_blitzed.Cache.Insert.{
  before, insert_at, insert_at-Segment, insert_at-Rising, insert_at-entry_in, link-nick_id,
  link-other, link-new, mem-before, SameIds, entry_in-ids, Rising-Once,
}

All-mem : (P : ℕ → Type 0) (x : ℕ) (l : List ℕ) → All P l → mem x l ≡ true → P x
All-mem P x [] a m = absurd (cc)
All-mem P x (y ∷ l) (p, a) m = elim (Bool-cases (y == x)) [
  | inl e ↦ subst P (ground (arith, e)) p
  | inr e ↦ All-mem P x l a (rw e at m)
]

pub All-of : (P : ℕ → Type 0) (l : List ℕ) → ((x : ℕ) → mem x l ≡ true → P x) → All P l
All-of P [] h = tt
All-of P (x ∷ l) h = (h x (ground arith), All-of P l (λ y m. h y (ground (arith, m))))

Rising-mem :
    (c : Cache) (low x : ℕ) (l : List ℕ)
    → Rising c low l
    → mem x l ≡ true
    → low < (c.node x).nick_id
Rising-mem c low x [] r m = absurd (cc)
Rising-mem c low x (y ∷ l) (p, r) m = elim (Bool-cases (y == x)) [
  | inl e ↦ subst (λ z. low < (c.node z).nick_id) (ground (arith, e)) p
  | inr e ↦ omega (arith, p, Rising-mem c (c.node y).nick_id x l r (rw e at m))
]

-- What is known of a node in a chain.
pub record IsPlaced (c : Cache) (b x : ℕ) : Type 0 where
  pub nonzero : 0 < (c.node x).nick_id
  pub right_chain : hash (c.node x).nick_id ≡ b
  pub old : x < c.fresh

pub mem-IsPlaced :
    (c : Cache) (chain : ℕ → List ℕ) (b x : ℕ)
    → IsCache c chain
    → b < 151
    → mem x (chain b) ≡ true
    → IsPlaced c b x
mem-IsPlaced c chain b x v h m =
    let p =
      All-mem (λ y. (hash (c.node y).nick_id ≡ b) × (y < c.fresh)) x (chain b) (v.placed b h) m in
    record { nonzero = Rising-mem c 0 x (chain b) (v.rising b h) m; right_chain = p.0; old = p.1 }

-- A node of another chain, or its head, is none of this one.
module _ (c : Cache) (chain : ℕ → List ℕ) (v : IsCache c chain) where
  pub fresh_not_mem : (b : ℕ) → b < 151 → mem c.fresh (chain b) ≡ false
  fresh_not_mem b h = elim (Bool-cases (mem c.fresh (chain b))) [
    | inl m ↦ let p = mem-IsPlaced c chain b c.fresh v h m in ground (arith, p.old)
    | inr m ↦ m
  ]

  head_not_mem : (b d : ℕ) → b < 151 → d < 151 → mem (c.heads d) (chain b) ≡ false
  head_not_mem b d h k = elim (Bool-cases (mem (c.heads d) (chain b))) [
    | inl m ↦
        let p = mem-IsPlaced c chain b (c.heads d) v h m in
        ground (arith, p.nonzero, v.heads_zero d k)
    | inr m ↦ m
  ]

  other_not_mem :
      (b d x : ℕ)
      → b < 151
      → d < 151
      → b ≢ d
      → mem x (c.heads d ∷ chain d) ≡ true
      → (mem x (chain b) ≡ false) × (c.heads b ≢ x)
  other_not_mem b d x h k n m = elim (Bool-cases (c.heads d == x)) [
    | inl e ↦
        let q : c.heads d ≡ x = ground (arith, e) in
        (
          subst (λ y. mem y (chain b) ≡ false) q (head_not_mem b d h k),
          λ r. n (v.heads_differ b d h k (r ∙ sym q)),
        )
    | inr e ↦
        let p = mem-IsPlaced c chain d x v k (rw e at m) in
        (
          not_here p,
          λ r. ground (arith, p.nonzero, v.heads_zero b h, ap (λ y. (c.node y).nick_id) r),
        )
  ]
    where
      not_here : IsPlaced c d x → mem x (chain b) ≡ false
      not_here p = elim (Bool-cases (mem x (chain b))) [
        | inl m' ↦
            let r = mem-IsPlaced c chain b x v h m' in
            absurd (n (sym r.right_chain ∙ p.right_chain))
        | inr m' ↦ m'
      ]

pub smalloc-IsCache : (c : Cache) (chain : ℕ → List ℕ) → IsCache c chain → IsCache (smalloc c) chain
unfolding smalloc
smalloc-IsCache c chain v =
    let same = λ (b : ℕ). All-of (λ x. c.node x ≡ c.node x) (chain b) (λ x m. refl) in
    record {
      heads_zero = v.heads_zero;
      heads_differ = v.heads_differ;
      heads_old = λ b h. omega (arith, v.heads_old b h);
      segment = λ b h.
          Segment-Same c (smalloc c) (c.heads b) (c.node (c.heads b)).next (chain b) (same b)
            (v.segment b h);
      rising = λ b h. Rising-Same c (smalloc c) 0 (chain b) (same b) (v.rising b h);
      placed = λ b h.
          All-of (λ x. (hash (c.node x).nick_id ≡ b) × (x < c.fresh + 1)) (chain b)
            (λ x m.
              let p = mem-IsPlaced c chain b x v h m in (p.right_chain, omega (arith, p.old)));
    }

All-insert_at :
    (c : Cache) (new id : ℕ) (P : ℕ → Type 0) (l : List ℕ)
    → P new
    → All P l
    → All P (insert_at c new id l)
All-insert_at c new id P [] q a = (q, tt)
All-insert_at c new id P (x ∷ l) q (r, a) = elim (Bool-cases (ltb (c.node x).nick_id id)) [
  | inl t ↦ rw t (r, All-insert_at c new id P l q a)
  | inr t ↦ rw t (q, (r, a))
]

-- The chains with a new node in its place.
abbrev pub with_new : Cache → ℕ → ℕ → (ℕ → List ℕ) → ℕ → List ℕ
with_new c new id chain b = if b == hash id then insert_at c new id (chain b) else chain b

-- A node that nobody uses is linked into the chain of its ID.
module _ (c : Cache) (chain : ℕ → List ℕ) (v : IsCache c chain) (new id : ℕ) (n : Node)
    (unused : (b : ℕ) → b < 151 → mem new (chain b) ≡ false)
    (no_head : (b : ℕ) → b < 151 → c.heads b ≢ new) (has_id : n.nick_id ≡ id) (nonzero : 0 < id)
    (absent : entry c chain id ≡ none) (allocated : new < c.fresh) where
  abbrev pub p : ℕ
  p = before c id (c.heads (hash id)) (chain (hash id))

  abbrev pub linked : Cache
  linked = link p new n c

  in_range : hash id < 151
  in_range = omega arith

  mem_middle : mem p (c.heads (hash id) ∷ chain (hash id)) ≡ true
  mem_middle = mem-before c id (c.heads (hash id)) (chain (hash id))

  pub p_not_new : p ≢ new
  p_not_new e = elim (Bool-cases (c.heads (hash id) == p)) [
    | inl q ↦ no_head (hash id) in_range (ground (arith, q, e))
    | inr q ↦
        let m : mem p (chain (hash id)) ≡ true = rw q at mem_middle in
        let u : mem p (chain (hash id)) ≡ false =
          subst (λ x. mem x (chain (hash id)) ≡ false) (sym e) (unused (hash id) in_range) in
        ground (arith, m, u)
  ]

  -- To prove something of every chain, look at the one with the new node, and at the others.
  by_chain :
      (P : ℕ → List ℕ → Type 0)
      → P (hash id) (insert_at c new id (chain (hash id)))
      → ((b : ℕ) → b ≢ hash id → P b (chain b))
      → (b : ℕ) → P b (with_new c new id chain b)
  by_chain P here others b = elim (Bool-cases (b == hash id)) [
    | inl e ↦ rw e (subst (λ d. P d (insert_at c new id (chain d))) (ground (arith, e)) here)
    | inr e ↦ rw e (others b (ground (arith, e)))
  ]

  new_id : (linked.node new).nick_id ≡ id
  new_id = ap (λ k. k.nick_id) (link-new p new n c p_not_new) ∙ has_id

  same_ids : (l : List ℕ) → mem new l ≡ false → SameIds c linked l
  same_ids l m =
      All-of (λ x. (linked.node x).nick_id ≡ (c.node x).nick_id) l
        (λ x k. link-nick_id p new n c x (λ e. ground (arith, m, subst (λ y. mem y l ≡ true) e k)))

  -- The other chains are left alone.
  others_unchanged : (b : ℕ) → b < 151 → b ≢ hash id → Same c linked (chain b)
  others_unchanged b k d =
      let o = other_not_mem c chain v b (hash id) p k in_range d mem_middle in
      All-of (λ x. linked.node x ≡ c.node x) (chain b)
        (λ x m.
          link-other p new n c x (λ e. ground (arith, o.0, subst (λ y. mem y (chain b) ≡ true) e m))
            (λ e. ground (arith, unused b k, subst (λ y. mem y (chain b) ≡ true) e m)))

  other_head_same : (b : ℕ) → b < 151 → b ≢ hash id → linked.node (c.heads b) ≡ c.node (c.heads b)
  other_head_same b k d =
      link-other p new n c (c.heads b)
        (other_not_mem c chain v b (hash id) p k in_range d mem_middle).1 (no_head b k)

  segments :
      (b : ℕ)
      → b < 151
      → Segment linked (c.heads b) (linked.node (c.heads b)).next (with_new c new id chain b)
  segments =
      by_chain (λ b l. b < 151 → Segment linked (c.heads b) (linked.node (c.heads b)).next l)
        (λ k.
          insert_at-Segment c n (c.heads (hash id)) new id (c.heads (hash id))
            (c.node (c.heads (hash id))).next (chain (hash id)) (v.segment (hash id) in_range) refl
            (
              head_not_mem c chain v (hash id) (hash id) in_range in_range,
              Rising-Once c 0 (chain (hash id)) (v.rising (hash id) in_range),
            )
            (ground (arith, no_head (hash id) in_range, unused (hash id) in_range))
            (λ e. no_head (hash id) in_range (sym e)))
        (λ b d k. rw (other_head_same b k d) (
          Segment-Same c linked (c.heads b) (c.node (c.heads b)).next (chain b)
            (others_unchanged b k d) (v.segment b k)))

  chains_rise : (b : ℕ) → b < 151 → Rising linked 0 (with_new c new id chain b)
  chains_rise =
      by_chain (λ b l. b < 151 → Rising linked 0 l)
        (λ k.
          insert_at-Rising c linked new id 0 (chain (hash id)) (v.rising (hash id) in_range) nonzero
            absent new_id (same_ids (chain (hash id)) (unused (hash id) in_range)))
        (λ b d k. Rising-Same c linked 0 (chain b) (others_unchanged b k d) (v.rising b k))

  still_placed :
      (b : ℕ) → b < 151 → All (λ x. (hash (linked.node x).nick_id ≡ b) × (x < c.fresh)) (chain b)
  still_placed b k =
      All-of (λ x. (hash (linked.node x).nick_id ≡ b) × (x < c.fresh)) (chain b)
        (λ x m.
          let r = mem-IsPlaced c chain b x v k m in
          (
            ap hash (
                  link-nick_id p new n c x
                    (λ e. ground (arith, unused b k, subst (λ y. mem y (chain b) ≡ true) e m)))
                ∙ r.right_chain,
            r.old,
          ))

  chains_placed :
      (b : ℕ)
      → b < 151
      → All (λ x. (hash (linked.node x).nick_id ≡ b) × (x < c.fresh)) (with_new c new id chain b)
  chains_placed =
      by_chain (λ b l. b < 151 → All (λ x. (hash (linked.node x).nick_id ≡ b) × (x < c.fresh)) l)
        (λ k.
          All-insert_at c new id (λ x. (hash (linked.node x).nick_id ≡ hash id) × (x < c.fresh))
            (chain (hash id)) (ap hash new_id, allocated) (still_placed (hash id) k))
        (λ b d k. still_placed b k)

  pub linked-IsCache : IsCache linked (with_new c new id chain)
  unfolding link put
  linked-IsCache = record {
    heads_zero = λ b k. link-nick_id p new n c (c.heads b) (no_head b k) ∙ v.heads_zero b k;
    heads_differ = v.heads_differ;
    heads_old = v.heads_old;
    segment = segments;
    rising = chains_rise;
    placed = chains_placed;
  }

  pub linked-entry :
      (k : ℕ)
      → entry linked (with_new c new id chain) k ≡ (if id == k then some new else entry c chain k)
  linked-entry k =
      by_chain
        (λ b l.
          hash k ≡ b → entry_in linked k l ≡ (if id == k then some new else entry_in c k (chain b)))
        (λ e.
          insert_at-entry_in c linked new id k (chain (hash id)) new_id
            (same_ids (chain (hash id)) (unused (hash id) in_range)))
        (λ b d e.
          let q : (id == k) ≡ false = elim (Bool-cases (id == k)) [
            | inl t ↦ absurd (d (sym e ∙ ap hash (sym ((==_iff id k).0 t))))
            | inr t ↦ t
          ] in
          let u : mem new (chain b) ≡ false = unused b (subst (λ z. z < 151) e (omega arith)) in
          rw q (entry_in-ids c linked k (chain b) (same_ids (chain b) u)))
        (hash k) refl
