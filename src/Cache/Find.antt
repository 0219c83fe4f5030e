-- ===== src/Cache/Find.antt =====
-- What nickcache_find finds.
use oftc_blitzed.Base.{ℕ, zero, suc, ◌<◌, ◌≡◌, List, [], ◌∷◌, some, arith, length}
use oftc_blitzed.Cache.{Cache, hash, find_from, nickcache_find}
use oftc_blitzed.Cache.Chain.{Segment, Rising, entry_in, IsCache, entry, entry_in-low}

find_from-entry_in :
    (fuel : ℕ) (c : Cache) (head id low a : ℕ) (l : List ℕ)
    → Segment c head a l
    → Rising c low l
    → length l < fuel
    → find_from fuel c head id a ≡ some (entry_in c id l)
unfolding find_from
find_from-entry_in zero c head id low a l s r f = ground arith
find_from-entry_in (suc n) c head id low a [] s r f = ground (arith, s)
find_from-entry_in (suc n) c head id low a (x ∷ l) (e, d, s) (p, r) f = rw e (
    ground (
      arith,
      d,
      entry_in-low c (c.node x).nick_id id l r,
      find_from-entry_in n c head id (c.node x).nick_id (c.node x).next l s r (omega (arith, f)),
    ))

-- In a cache in order, with fuel for more turns than the chain has nodes, nickcache_find returns,
-- and finds the entry with the ID, wherever it is in its chain, or NULL if there is none.
pub nickcache_find-entry :
    (fuel : ℕ) (c : Cache) (chain : ℕ → List ℕ) (id : ℕ)
    → IsCache c chain
    → length (chain (hash id)) < fuel
    → nickcache_find fuel c id ≡ some (entry c chain id)
unfolding nickcache_find
nickcache_find-entry fuel c chain id v f =
    let b : hash id < 151 = omega arith in
    find_from-entry_in fuel c (c.heads (hash id)) id 0 (c.node (c.heads (hash id))).next
      (chain (hash id)) (v.segment (hash id) b) (v.rising (hash id) b) f
