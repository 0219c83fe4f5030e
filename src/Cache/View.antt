-- ===== src/Cache/View.antt =====
-- The cache as a map from nick IDs to entries, under each of its writes.
use oftc_blitzed.Base.{
  ℕ, ◌<◌, ◌≡◌, ◌≢◌, refl, ap, subst, ◌∙◌, true, false, List, [], ◌∷◌, Option, none, some, arith,
  ◌==◌, if◌then◌else◌, length, mem, inl, inr, Bool-cases,
}
use oftc_blitzed.Cache.{
  Node, Cache, Row, Bits, hash, put, link, new_node, smalloc, insert_row, bind,
}
use oftc_blitzed.Cache.Chain.{entry_in, IsCache, entry}
use oftc_blitzed.Cache.Insert.{before, place-before, link-new}
use oftc_blitzed.Cache.Coherent.{
  fresh_not_mem, smalloc-IsCache, with_new, linked-IsCache, linked-entry, p_not_new,
}

pub record Entry : Type 0 where
  pub status : Bits
  pub status_timestamp : ℕ
  pub language : ℕ
  pub language_timestamp : ℕ

abbrev pub payload : Node → Entry
payload n = record {
  status = n.status;
  status_timestamp = n.status_timestamp;
  language = n.language;
  language_timestamp = n.language_timestamp;
}

abbrev pub row_entry : ℕ → Row → Entry
row_entry now row = record {
  status = row.status;
  status_timestamp = now;
  language = row.language;
  language_timestamp = now;
}

abbrev pub contents : Cache → Option ℕ → Option Entry
contents c none = none
contents c (some x) = some (payload (c.node x))

abbrev pub view : Cache → (ℕ → List ℕ) → ℕ → Option Entry
view c chain id = contents c (entry c chain id)

-- After an operation for `id` the entry for it is at `r` and has the value `cur`; the others are as
-- they were before.
pub record Holds (c : Cache) (chain : ℕ → List ℕ) (id : ℕ) (cur : Option Entry) (c' : Cache)
    (r : Option ℕ) : Type 0 where
  pub chain' : ℕ → List ℕ
  pub valid : IsCache c' chain'
  pub found : entry c' chain' id ≡ r
  pub value : contents c' r ≡ cur
  pub others : (k : ℕ) → k ≢ id → view c' chain' k ≡ view c chain k

-- An address that is found is in the list, and has the ID.
pub entry_in-some :
    (c : Cache) (id x : ℕ) (l : List ℕ)
    → entry_in c id l ≡ some x
    → (mem x l ≡ true) × ((c.node x).nick_id ≡ id)
entry_in-some c id x [] h = absurd (cc)
entry_in-some c id x (y ∷ l) h = elim (Bool-cases ((c.node y).nick_id == id)) [
  | inl e ↦
      let q : y ≡ x = ground (arith, rw e at h) in
      (ground (arith, q), subst (λ z. (c.node z).nick_id ≡ id) q (ground (arith, e)))
  | inr e ↦ let r = entry_in-some c id x l (rw e at h) in (ground (arith, r.0), r.1)
]

link-payload :
    (prev new : ℕ) (n : Node) (c : Cache) (y : ℕ)
    → y ≢ new
    → payload ((link prev new n c).node y) ≡ payload (c.node y)
unfolding link put
link-payload prev new n c y q = ground (arith, q)

pub contents-other :
    (c d : Cache) (new : ℕ) (r : Option ℕ)
    → r ≢ some new
    → ((y : ℕ) → y ≢ new → payload (d.node y) ≡ payload (c.node y))
    → contents d r ≡ contents c r
contents-other c d new none n h = refl
contents-other c d new (some x) n h = ap some (h x (λ e. n (ap some e)))

pub same_entry : (c : Cache) (id : ℕ) (l : List ℕ) → entry_in (smalloc c) id l ≡ entry_in c id l
unfolding smalloc
same_entry c id [] = refl
same_entry c id (x ∷ l) = rw (same_entry c id l)

pub smalloc-view :
    (c : Cache) (chain : ℕ → List ℕ) (k : ℕ) → view (smalloc c) chain k ≡ view c chain k
unfolding smalloc
smalloc-view c chain k = ap (contents c) (same_entry c k (chain (hash k)))

-- The new entry of a nick that is not in the cache.
module _ (now id : ℕ) (c : Cache) (chain : ℕ → List ℕ) (row : Row) (v : IsCache c chain)
    (z : 0 < id) (a : entry c chain id ≡ none) where
  abbrev pub e : Cache
  e = smalloc c

  unused : (b : ℕ) → b < 151 → mem c.fresh (chain b) ≡ false
  unused b h = fresh_not_mem c chain v b h

  no_head : (b : ℕ) → b < 151 → e.heads b ≢ c.fresh
  unfolding smalloc
  no_head b h q = omega (arith, v.heads_old b h, q)

  absent : entry e chain id ≡ none
  absent = same_entry c id (chain (hash id)) ∙ a

  allocated : c.fresh < e.fresh
  unfolding smalloc
  allocated = omega arith

  abbrev n : Node
  n = new_node now id row

  abbrev pub inserted : Cache
  inserted = link (before e id (e.heads (hash id)) (chain (hash id))) c.fresh n e

  not_new : before e id (e.heads (hash id)) (chain (hash id)) ≢ c.fresh
  not_new =
      p_not_new e chain (smalloc-IsCache c chain v) c.fresh id n unused no_head refl z absent
        allocated

  entries :
      (k : ℕ)
      → entry inserted (with_new e c.fresh id chain) k
        ≡ (if id == k then some c.fresh else entry e chain k)
  entries =
      linked-entry e chain (smalloc-IsCache c chain v) c.fresh id n unused no_head refl z absent
        allocated

  not_found : (k : ℕ) → entry e chain k ≢ some c.fresh
  not_found k q =
      ground
        (arith, (entry_in-some e k c.fresh (chain (hash k)) q).0, unused (hash k) (omega arith))

  other_view : (k : ℕ) → k ≢ id → view inserted (with_new e c.fresh id chain) k ≡ view c chain k
  other_view k q =
      let g : (id == k) ≡ false = ground (arith, q) in
      ap (contents inserted) (entries k ∙ rw g)
      ∙ contents-other e inserted c.fresh (entry e chain k) (not_found k)
          (link-payload (before e id (e.heads (hash id)) (chain (hash id))) c.fresh n e)
      ∙ smalloc-view c chain k

  pub inserted-IsCache : IsCache inserted (with_new e c.fresh id chain)
  inserted-IsCache =
      linked-IsCache e chain (smalloc-IsCache c chain v) c.fresh id n unused no_head refl z absent
        allocated

  pub inserted-Holds : Holds c chain id (some (row_entry now row)) inserted (some c.fresh)
  inserted-Holds = record {
    chain' = with_new e c.fresh id chain;
    valid = inserted-IsCache;
    found = entries id ∙ ground arith;
    value =
        ap (λ k. some (payload k))
          (link-new (before e id (e.heads (hash id)) (chain (hash id))) c.fresh n e not_new);
    others = other_view;
  }

  pub insert_row-inserted :
      (fuel : ℕ)
      → length (chain (hash id)) < fuel
      → insert_row fuel now id c row ≡ some (inserted, some c.fresh)
  unfolding insert_row
  insert_row-inserted fuel f =
      ap (λ p. bind p (λ prev. some (link prev c.fresh n e, some c.fresh)))
        (place-before fuel e (e.heads (hash id)) id (e.heads (hash id))
          (e.node (e.heads (hash id))).next (chain (hash id))
          ((smalloc-IsCache c chain v).segment (hash id) (omega arith)) f)
