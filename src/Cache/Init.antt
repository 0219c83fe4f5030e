-- ===== src/Cache/Init.antt =====
-- The cache that nickcache_init makes, and the setters of the status.
use oftc_blitzed.Base.{
  ℕ, ◌+◌, ◌<◌, ◌≡◌, refl, ◌∙◌, ap, false, ◌||◌, List, [], Option, none, some, arith, length,
}
use oftc_blitzed.Cache.{
  Cache, Row, Database, Bits, hash, nickcache_init, with_status, nickcache_add_status,
  nickcache_get_status, is_old,
}
use oftc_blitzed.Cache.Chain.{IsCache}
use oftc_blitzed.Cache.View.{Entry, view}
use oftc_blitzed.Cache.Refine.{
  Changes, known, current, set_entry-Refines, nickcache_get_status-Refines,
}

pub nickcache_init-IsCache : (c : Cache) → IsCache (nickcache_init c) (λ b. [])
unfolding nickcache_init
nickcache_init-IsCache c = record {
  heads_zero = λ b h. ground arith;
  heads_differ = λ b d h k e. omega (arith, e);
  heads_old = λ b h. omega (arith, h);
  segment = λ b h. ground arith;
  rising = λ b h. tt;
  placed = λ b h. tt;
}

with_status-Changes :
    (now : ℕ) (f : Bits → Bits)
    → Changes (with_status now f) (λ e. record e { status = f e.status; status_timestamp = now })
with_status-Changes now f = record { next = λ n. refl; nick_id = λ n. refl; rest = λ n. refl }

abbrev added : ℕ → Bits → Entry → Entry
added now s e = record e { status = λ i. e.status i || s i; status_timestamp = now }

current-added :
    (now later : ℕ) (s : Bits) (e : Entry) (row : Row) (m : Option Entry)
    → later < now + 3600
    → m ≡ some (added now s e)
    → (current (λ k. k.status_timestamp) later row m).status ≡ (λ i. e.status i || s i)
current-added now later s e row none t q = absurd (cc)
current-added now later s e row (some k) t q =
    let old : is_old later now ≡ false = ground (arith, t) in
    let r : k ≡ added now s e = ap (the k) q in rw (r, old)
  where
    the : Entry → Option Entry → Entry
    the d none = d
    the d (some x) = x

-- In a cache in order, status bits that are added to a nick in the database are there, with those that the nick had, when
-- the status is asked for within the hour: nickcache_add_status returns, and so does a later
-- nickcache_get_status with fuel for the chain, whatever row of the nick
-- the database has then, and gives the union.
pub nickcache_get_status-add_status :
    (fuel : ℕ) (db db' : Database) (now later id : ℕ) (s : Bits) (c : Cache) (chain : ℕ → List ℕ)
    (row row' : Row)
    → IsCache c chain
    → 0 < id
    → length (chain (hash id)) < fuel
    → db id ≡ some row
    → db' id ≡ some row'
    → later < now + 3600
    → (c1 : Cache) × (nickcache_add_status fuel db now id s c ≡ some c1)
      × (bound : ℕ) × ((more : ℕ)
          → bound < more
          → (c2 : Cache) × (nickcache_get_status more db' later id c1
              ≡ some (c2, λ i. (known now row (view c chain id)).status i || s i)))
unfolding nickcache_add_status
nickcache_get_status-add_status fuel db db' now later id s c chain row row' v z f q q' t =
    let k = known now row (view c chain id) in
    let (c1, e, r) =
      set_entry-Refines (with_status now (λ o i. o i || s i)) (added now s) fuel db now id c chain
        row (with_status-Changes now (λ o i. o i || s i)) v z f q in
    (
      c1,
      e,
      length (r.chain' (hash id)),
      λ more m.
          let (c2, e2, r2) =
            nickcache_get_status-Refines more db' later id c1 r.chain' row' r.valid z m q' in
          let here : view c1 r.chain' id ≡ some (added now s k) = r.same id ∙ ground arith in
          (
            c2,
            e2
                ∙ ap (λ b. some (c2, b))
                    (current-added now later s k row' (view c1 r.chain' id) t here),
          ),
    )
