-- ===== src/Cache/Examples.antt =====
-- A cache with one nick.
use oftc_blitzed.Base.{ℕ, ◌≡◌, refl, false, List, [], some, arith, ◌==◌}
use oftc_blitzed.Cache.{
  Cache, Row, Database, nickcache_init, nickcache_del, nickcache_get_status, no_bits, smalloc, link,
  put,
}
use oftc_blitzed.Cache.Chain.{IsCache}
use oftc_blitzed.Cache.View.{view, inserted, inserted-IsCache}
use oftc_blitzed.Cache.Refine.{Refines, current, nickcache_get_status-Refines}
use oftc_blitzed.Cache.Init.{nickcache_init-IsCache}
use oftc_blitzed.Cache.Coherent.{with_new}
use oftc_blitzed.Cache.Delete.{nickcache_del-frees_head}

abbrev blank : Cache
blank = record {
  node = λ a. record {
    next = 0;
    nick_id = 0;
    status = no_bits;
    status_timestamp = 0;
    language = 0;
    language_timestamp = 0;
  };
  heads = λ i. 0;
  alive = λ a. false;
  fresh = 1;
}

abbrev start : Cache
start = nickcache_init blank

abbrev empty : ℕ → List ℕ
empty b = []

abbrev row : Row
row = record { status = λ i. i == 2; language = 5 }

abbrev db : Database
db id = some row

nickcache_get_status-Refines_example :
    (c' : Cache) × (nickcache_get_status 1 db 1000 7 start
      ≡ some (c', (current (λ e. e.status_timestamp) 1000 row (view start empty 7)).status))
    × Refines start empty 7 (current (λ e. e.status_timestamp) 1000 row (view start empty 7)) c'
nickcache_get_status-Refines_example =
    nickcache_get_status-Refines 1 db 1000 7 start empty row (nickcache_init-IsCache blank)
      (omega arith) (omega arith) refl

-- The cache with nick 7 in it, and its chains.
abbrev filled : Cache
filled = inserted 1000 7 start empty row (nickcache_init-IsCache blank) (omega arith) refl

filled-IsCache : IsCache filled (with_new (smalloc start) start.fresh 7 empty)
filled-IsCache =
    inserted-IsCache 1000 7 start empty row (nickcache_init-IsCache blank) (omega arith) refl

nickcache_del-frees_head_example :
    (c' : Cache) × (nickcache_del 2 7 filled ≡ some c')
    × (c'.heads 7 ≡ filled.heads 7)
    × (c'.alive (c'.heads 7) ≡ false)
    × (c'.alive 152 ≡ filled.alive 152)
    × ((c'.node 152).next ≡ (filled.node (filled.node 152).next).next)
unfolding nickcache_init smalloc link put
nickcache_del-frees_head_example =
    nickcache_del-frees_head 0 filled (with_new (smalloc start) 152 7 empty) 7 152 [] filled-IsCache
      refl refl
