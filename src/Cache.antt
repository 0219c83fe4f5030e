-- ===== src/Cache.antt =====
-- src/cache.c: the cache of the status and the language of registered nicks. Each of the 151
-- chains is a circular list in the order of the nick IDs, with a head that has the ID 0. Addresses
-- are numbers; `alive` is cleared by free(). The database is an argument, and so is the clock.
-- The loops run on fuel; `none` means that it ran out.
pub mod Chain
pub mod Find
pub mod Insert
pub mod Coherent
pub mod View
pub mod Refine
pub mod Init
pub mod Delete
mod Examples
use oftc_blitzed.Base.{
  ℕ, zero, suc, ◌+◌, ◌%◌, Bool, true, false, not, ◌&&◌, ◌||◌, Option, none, some, ◌==◌,
  if◌then◌else◌, ltb, leb,
}

-- A set of bits, by its members.
abbrev pub Bits : Type 0
Bits = ℕ → Bool

-- struct nickcache
pub record Node : Type 0 where
  pub next : ℕ
  pub nick_id : ℕ
  pub status : Bits
  pub status_timestamp : ℕ
  pub language : ℕ
  pub language_timestamp : ℕ

-- nickcacheheads, and the memory; `fresh` is what smalloc answers next.
pub record Cache : Type 0 where
  pub node : ℕ → Node
  pub heads : ℕ → ℕ
  pub alive : ℕ → Bool
  pub fresh : ℕ

-- "SELECT status, language FROM nick WHERE nick_id=%u"
pub record Row : Type 0 where
  pub status : Bits
  pub language : ℕ

abbrev pub Database : Type 0
Database = ℕ → Option Row

abbrev pub hash : ℕ → ℕ
hash id = id % 151

-- 151 heads, one after the other, each of which points to itself.
unfoldable pub nickcache_init : Cache → Cache
nickcache_init c = record {
  node = λ a.
      if leb c.fresh a && ltb a (c.fresh + 151)
      then record (c.node a) { next = a; nick_id = 0 }
      else c.node a;
  heads = λ i. c.fresh + i;
  alive = λ a. if leb c.fresh a && ltb a (c.fresh + 151) then true else c.alive a;
  fresh = c.fresh + 151;
}

-- A write to the node at an address.
unfoldable pub put : ℕ → Node → Cache → Cache
put a n c = record c { node = λ b. if b == a then n else c.node b }

abbrev pub set_next : ℕ → ℕ → Cache → Cache
set_next a next c = put a (record (c.node a) { next = next }) c

pub find_from : ℕ → Cache → ℕ → ℕ → ℕ → Option (Option ℕ)
find_from zero c head id nc = none
find_from (suc n) c head id nc =
    let rest = find_from n c head id (c.node nc).next in
    if nc == head || ltb id (c.node nc).nick_id
    then some none
    else if (c.node nc).nick_id == id
    then some (some nc)
    else rest

pub nickcache_find : ℕ → Cache → ℕ → Option (Option ℕ)
unfolding find_from
nickcache_find fuel c id =
    let head = c.heads (hash id) in find_from fuel c head id (c.node head).next

-- The loop of nickcache_insert: the node behind which the new one goes.
pub place : ℕ → Cache → ℕ → ℕ → ℕ → ℕ → Option ℕ
place zero c head id prev nc = none
place (suc n) c head id prev nc =
    let rest = place n c head id nc (c.node nc).next in
    if not (nc == head) && ltb (c.node nc).nick_id id then rest else some prev

abbrev pub new_node : ℕ → ℕ → Row → Node
new_node now id row = record {
  next = 0;
  nick_id = id;
  status = row.status;
  status_timestamp = now;
  language = row.language;
  language_timestamp = now;
}

-- `new->next = prev->next; prev->next = new;`
unfoldable pub link : ℕ → ℕ → Node → Cache → Cache
unfolding put
link prev new n c = set_next prev new (put new (record n { next = (c.node prev).next }) c)

abbrev pub bind {ℓ κ} : {A : Type ℓ} {B : Type κ} → Option A → (A → Option B) → Option B
bind none f = none
bind (some a) f = f a

unfoldable pub smalloc : Cache → Cache
smalloc c = record c { fresh = c.fresh + 1; alive = λ a. if a == c.fresh then true else c.alive a }

pub insert_row : ℕ → ℕ → ℕ → Cache → Row → Option (Cache × Option ℕ)
unfolding place link smalloc
insert_row fuel now id c row =
    let c' = smalloc c in
    let head = c'.heads (hash id) in
    bind (place fuel c' head id head (c'.node head).next)
      (λ prev. some (link prev c.fresh (new_node now id row) c', some c.fresh))

-- The address of the new entry; NULL if the nick is not in the database.
pub nickcache_insert : ℕ → Database → ℕ → ℕ → Cache → Option (Cache × Option ℕ)
unfolding insert_row smalloc
nickcache_insert fuel db now id c = elim (db id) [
  | none ↦ some (smalloc c, none)
  | some row ↦ insert_row fuel now id c row
]

-- From `nc`, with `z` behind it. The test for the end of the list compares a node with the one that
-- it points to; what is unlinked is the node after `nc`, and what is freed is `z`.
pub del_from : ℕ → ℕ → ℕ → ℕ → Cache → Option Cache
unfolding put
del_from zero id z nc c = none
del_from (suc n) id z nc c =
    let rest = del_from n id nc (c.node nc).next c in
    if (c.node nc).nick_id == id
    then some (record (set_next nc (c.node (c.node nc).next).next c) {
      alive = λ a. if a == z then false else c.alive a;
    })
    else if nc == (c.node nc).next || ltb id (c.node nc).nick_id
    then some c
    else rest

pub nickcache_del : ℕ → ℕ → Cache → Option Cache
unfolding del_from
nickcache_del fuel id c = let head = c.heads (hash id) in del_from fuel id head head c

-- The fields of an entry that is there, from the database.
abbrev pub refreshed : ℕ → Row → Node → Node
refreshed now row n = record n {
  status = row.status;
  language = row.language;
  status_timestamp = now;
  language_timestamp = now;
}

abbrev pub or_insert : ℕ → Database → ℕ → ℕ → Cache → Option ℕ → Option (Cache × Option ℕ)
or_insert fuel db now id c none = nickcache_insert fuel db now id c
or_insert fuel db now id c (some nc) = some (c, some nc)

-- The entry, which is made if there is none.
pub find_or_insert : ℕ → Database → ℕ → ℕ → Cache → Option (Cache × Option ℕ)
unfolding nickcache_find nickcache_insert
find_or_insert fuel db now id c = bind (nickcache_find fuel c id) (or_insert fuel db now id c)

abbrev pub write_row : ℕ → Row → Cache → Option ℕ → Cache × Option ℕ
write_row now row c none = (c, none)
write_row now row c (some nc) = (put nc (refreshed now row (c.node nc)) c, some nc)

pub nickcache_update : ℕ → Database → ℕ → ℕ → Cache → Option (Cache × Option ℕ)
unfolding find_or_insert nickcache_del put
nickcache_update fuel db now id c = bind (find_or_insert fuel db now id c) (λ r. elim (db id) [
  | none ↦ bind (nickcache_del fuel id r.0) (λ c'. some (c', none))
  | some row ↦ some (write_row now row r.0 r.1)
])

abbrev pub is_old : ℕ → ℕ → Bool
is_old now stamp = leb (stamp + 3600) now

abbrev pub or_freshen :
    (Node → ℕ) → ℕ → Database → ℕ → ℕ → Cache → Option ℕ → Option (Cache × Option ℕ)
or_freshen stamp fuel db now id c none = nickcache_insert fuel db now id c
or_freshen stamp fuel db now id c (some nc) =
    if is_old now (stamp (c.node nc)) then nickcache_update fuel db now id c else some (c, some nc)

-- The entry for retrieval, which is refreshed if it is an hour old.
pub find_fresh : (Node → ℕ) → ℕ → Database → ℕ → ℕ → Cache → Option (Cache × Option ℕ)
unfolding nickcache_find nickcache_insert nickcache_update
find_fresh stamp fuel db now id c =
    bind (nickcache_find fuel c id) (or_freshen stamp fuel db now id c)

abbrev pub read {ℓ} : {A : Type ℓ} → (Node → A) → A → Cache × Option ℕ → Cache × A
read field zero_ (c, none) = (c, zero_)
read field zero_ (c, some nc) = (c, field (c.node nc))

abbrev pub no_bits : Bits
no_bits i = false

pub nickcache_get_status : ℕ → Database → ℕ → ℕ → Cache → Option (Cache × Bits)
unfolding find_fresh
nickcache_get_status fuel db now id c =
    bind (find_fresh (λ n. n.status_timestamp) fuel db now id c)
      (λ r. some (read (λ n. n.status) no_bits r))

pub nickcache_get_language : ℕ → Database → ℕ → ℕ → Cache → Option (Cache × ℕ)
unfolding find_fresh
nickcache_get_language fuel db now id c =
    bind (find_fresh (λ n. n.language_timestamp) fuel db now id c)
      (λ r. some (read (λ n. n.language) 0 r))

abbrev pub change : (Node → Node) → Cache × Option ℕ → Cache
change f (c, none) = c
change f (c, some nc) = put nc (f (c.node nc)) c

-- The four setters differ in what they do to the entry.
pub set_entry : (Node → Node) → ℕ → Database → ℕ → ℕ → Cache → Option Cache
unfolding find_or_insert put
set_entry f fuel db now id c = bind (find_or_insert fuel db now id c) (λ r. some (change f r))

abbrev pub with_status : ℕ → (Bits → Bits) → Node → Node
with_status now f n = record n { status = f n.status; status_timestamp = now }

pub nickcache_set_status : ℕ → Database → ℕ → ℕ → Bits → Cache → Option Cache
unfolding set_entry
nickcache_set_status fuel db now id status c =
    set_entry (with_status now (λ s. status)) fuel db now id c

pub nickcache_add_status : ℕ → Database → ℕ → ℕ → Bits → Cache → Option Cache
unfolding set_entry
nickcache_add_status fuel db now id status c =
    set_entry (with_status now (λ s i. s i || status i)) fuel db now id c

pub nickcache_remove_status : ℕ → Database → ℕ → ℕ → Bits → Cache → Option Cache
unfolding set_entry
nickcache_remove_status fuel db now id status c =
    set_entry (with_status now (λ s i. s i && not (status i))) fuel db now id c

pub nickcache_set_language : ℕ → Database → ℕ → ℕ → ℕ → Cache → Option Cache
unfolding set_entry
nickcache_set_language fuel db now id language c =
    set_entry (λ n. record n { language = language; language_timestamp = now }) fuel db now id c
