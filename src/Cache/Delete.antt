-- ===== src/Cache/Delete.antt =====
-- What nickcache_del does to a chain.
use oftc_blitzed.Base.{ℕ, suc, ◌≡◌, refl, subst, false, List, ◌∷◌, some, arith, ◌==◌, if◌then◌else◌}
use oftc_blitzed.Cache.{Cache, hash, put, set_next, nickcache_del, del_from}
use oftc_blitzed.Cache.Chain.{IsCache, Segment, Rising}

-- Deleting the first entry of a chain frees the head of the chain, which stays in nickcacheheads, and
-- leaves the entry itself allocated; the node that is unlinked is the one behind the entry.
pub nickcache_del-frees_head :
    (fuel : ℕ) (c : Cache) (chain : ℕ → List ℕ) (id x : ℕ) (l : List ℕ)
    → IsCache c chain
    → chain (hash id) ≡ x ∷ l
    → (c.node x).nick_id ≡ id
    → (c' : Cache) × (nickcache_del (suc (suc fuel)) id c ≡ some c')
      × (c'.heads (hash id) ≡ c.heads (hash id))
      × (c'.alive (c'.heads (hash id)) ≡ false)
      × (c'.alive x ≡ c.alive x)
      × ((c'.node x).next ≡ (c.node (c.node x).next).next)
unfolding nickcache_del del_from put
nickcache_del-frees_head fuel c chain id x l v e q =
    let head = c.heads (hash id) in
    let seg : Segment c head (c.node head).next (x ∷ l) =
      subst (Segment c head (c.node head).next) e (v.segment (hash id) (omega arith)) in
    let low : Rising c 0 (x ∷ l) = subst (Rising c 0) e (v.rising (hash id) (omega arith)) in
    let zero_ = v.heads_zero (hash id) (omega arith) in
    (
      record (set_next x (c.node (c.node x).next).next c) {
        alive = λ a. if a == head then false else c.alive a;
      },
      ground (arith, seg.0, seg.1, low.0, zero_, q),
      refl,
      ground arith,
      ground (arith, seg.1),
      ground arith,
    )
