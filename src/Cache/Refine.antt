-- ===== src/Cache/Refine.antt =====
-- The operations of the cache against a map from nick IDs to entries.
use oftc_blitzed.Base.{
  ℕ, ◌<◌, ◌≡◌, ◌≢◌, refl, sym, ap, subst, ◌∙◌, List, [], ◌∷◌, Option, none, some, arith, ◌==◌,
  if◌then◌else◌, length, inl, inr, Bool-cases,
}
use oftc_blitzed.Cache.{
  Node, Cache, Row, Database, hash, put, smalloc, nickcache_insert, find_or_insert, or_insert,
  refreshed, write_row, nickcache_update, is_old, or_freshen, find_fresh, read, no_bits,
  nickcache_get_status, change, set_entry,
}
use oftc_blitzed.Cache.Chain.{Segment, Rising, entry_in, IsCache, entry}
use oftc_blitzed.Cache.Find.{nickcache_find-entry}
use oftc_blitzed.Cache.Coherent.{All-of, mem-IsPlaced, smalloc-IsCache}
use oftc_blitzed.Cache.View.{
  Entry, payload, row_entry, contents, view, Holds, entry_in-some, contents-other, same_entry,
  smalloc-view, inserted, inserted-Holds, insert_row-inserted,
}

-- Links and IDs are what they were.
record SameShape (c d : Cache) : Type 0 where
  next : (y : ℕ) → (d.node y).next ≡ (c.node y).next
  nick_id : (y : ℕ) → (d.node y).nick_id ≡ (c.node y).nick_id
  heads : d.heads ≡ c.heads
  fresh : d.fresh ≡ c.fresh

Segment-shape :
    (c d : Cache) (head a : ℕ) (l : List ℕ)
    → SameShape c d
    → Segment c head a l
    → Segment d head a l
Segment-shape c d head a [] s h = h
Segment-shape c d head a (x ∷ l) s (p, q, h) =
    (p, q, rw (s.next x) (Segment-shape c d head (c.node x).next l s h))

Rising-shape :
    (c d : Cache) (low : ℕ) (l : List ℕ) → SameShape c d → Rising c low l → Rising d low l
Rising-shape c d low [] s h = tt
Rising-shape c d low (x ∷ l) s (p, h) =
    rw (s.nick_id x) (p, Rising-shape c d (c.node x).nick_id l s h)

entry_in-shape :
    (c d : Cache) (k : ℕ) (l : List ℕ) → SameShape c d → entry_in d k l ≡ entry_in c k l
entry_in-shape c d k [] s = refl
entry_in-shape c d k (x ∷ l) s = rw (s.nick_id x, entry_in-shape c d k l s)

IsCache-shape :
    (c d : Cache) (chain : ℕ → List ℕ) → SameShape c d → IsCache c chain → IsCache d chain
IsCache-shape c d chain s v = record {
  heads_zero =
      λ b h. ap (λ f. (d.node (f b)).nick_id) s.heads ∙ s.nick_id (c.heads b) ∙ v.heads_zero b h;
  heads_differ =
      λ b k h i e. v.heads_differ b k h i (sym (ap (λ f. f b) s.heads) ∙ e ∙ ap (λ f. f k) s.heads);
  heads_old = λ b h. rw (s.heads, s.fresh) (v.heads_old b h);
  segment = λ b h.
      rw (s.heads, s.next (c.heads b))
        (Segment-shape c d (c.heads b) (c.node (c.heads b)).next (chain b) s (v.segment b h));
  rising = λ b h. Rising-shape c d 0 (chain b) s (v.rising b h);
  placed = λ b h.
      All-of (λ x. (hash (d.node x).nick_id ≡ b) × (x < d.fresh)) (chain b)
        (λ x m.
          let p = mem-IsPlaced c chain b x v h m in
          (ap hash (s.nick_id x) ∙ p.right_chain, rw s.fresh p.old));
}

-- A function on nodes that leaves the link and the ID, and does to the rest what `g` does.
pub record Changes (f : Node → Node) (g : Entry → Entry) : Type 0 where
  pub next : (n : Node) → (f n).next ≡ n.next
  pub nick_id : (n : Node) → (f n).nick_id ≡ n.nick_id
  pub rest : (n : Node) → payload (f n) ≡ g (payload n)

put-SameShape :
    (f : Node → Node) (g : Entry → Entry) (x : ℕ) (c : Cache)
    → Changes f g
    → SameShape c (put x (f (c.node x)) c)
unfolding put
put-SameShape f g x c h = record {
  next = λ y. ground (arith, h.next (c.node x));
  nick_id = λ y. ground (arith, h.nick_id (c.node x));
  heads = refl;
  fresh = refl;
}

put-other :
    (x : ℕ) (n : Node) (c : Cache) (y : ℕ)
    → y ≢ x
    → payload ((put x n c).node y) ≡ payload (c.node y)
unfolding put
put-other x n c y h = ground (arith, h)

put_self : (x : ℕ) (n : Node) (c : Cache) → (put x n c).node x ≡ n
unfolding put
put_self x n c = ground arith

abbrev pub lift : (Entry → Entry) → Option Entry → Option Entry
lift g none = none
lift g (some e) = some (g e)

put-Holds :
    (f : Node → Node) (g : Entry → Entry) (c : Cache) (chain : ℕ → List ℕ) (id : ℕ) (cur : Entry)
    (c' : Cache) (x : ℕ)
    → Changes f g
    → Holds c chain id (some cur) c' (some x)
    → Holds c chain id (some (g cur)) (put x (f (c'.node x)) c') (some x)
put-Holds f g c chain id cur c' x h o =
    let s = put-SameShape f g x c' h in
    let e = put x (f (c'.node x)) c' in
    record {
      chain' = o.chain';
      valid = IsCache-shape c' e o.chain' s o.valid;
      found = entry_in-shape c' e id (o.chain' (hash id)) s ∙ o.found;
      value =
          ap (λ n. some (payload n)) (put_self x (f (c'.node x)) c')
          ∙ ap some (h.rest (c'.node x))
          ∙ ap (lift g) o.value;
      others = λ k q.
          ap (contents e) (entry_in-shape c' e k (o.chain' (hash k)) s)
          ∙ contents-other c' e x (entry c' o.chain' k)
              (λ r. q (
                sym (entry_in-some c' k x (o.chain' (hash k)) r).1
                ∙ (entry_in-some c' id x (o.chain' (hash id)) o.found).1))
              (put-other x (f (c'.node x)) c')
          ∙ o.others k q;
    }

-- What the cache has, or the database if the cache has nothing.
abbrev pub or_row : ℕ → Option Row → Option Entry → Option Entry
or_row now r (some e) = some e
or_row now none none = none
or_row now (some row) none = some (row_entry now row)

-- An operation for `id` returns, with the value `cur` for it.
abbrev pub Returns : Cache → (ℕ → List ℕ) → ℕ → Option Entry → Option (Cache × Option ℕ) → Type 0
Returns c chain id cur o =
    (c' : Cache) × (r : Option ℕ) × (o ≡ some (c', r)) × Holds c chain id cur c' r

stays-Holds :
    (c : Cache) (chain : ℕ → List ℕ) (id : ℕ) (r : Option ℕ)
    → IsCache c chain
    → entry c chain id ≡ r
    → Holds c chain id (contents c r) c r
stays-Holds c chain id r v e = record {
  chain' = chain;
  valid = v;
  found = e;
  value = refl;
  others = λ k q. refl;
}

insert-Returns :
    (fuel : ℕ) (db : Database) (now id : ℕ) (c : Cache) (chain : ℕ → List ℕ) (row : Option Row)
    → IsCache c chain
    → 0 < id
    → length (chain (hash id)) < fuel
    → entry c chain id ≡ none
    → db id ≡ row
    → Returns c chain id (or_row now row none) (nickcache_insert fuel db now id c)
unfolding nickcache_insert smalloc
insert-Returns fuel db now id c chain none v z f a e = (
  smalloc c,
  none,
  rw (e, nickcache_insert),
  record {
    chain' = chain;
    valid = smalloc-IsCache c chain v;
    found = same_entry c id (chain (hash id)) ∙ a;
    value = refl;
    others = λ k q. smalloc-view c chain k;
  },
)
insert-Returns fuel db now id c chain (some row) v z f a e = (
  inserted now id c chain row v z a,
  some c.fresh,
  rw (e, nickcache_insert) (insert_row-inserted now id c chain row v z a fuel f),
  inserted-Holds now id c chain row v z a,
)

find_or_insert-cases :
    (fuel : ℕ) (db : Database) (now id : ℕ) (c : Cache) (chain : ℕ → List ℕ) (r : Option ℕ)
    → IsCache c chain
    → 0 < id
    → length (chain (hash id)) < fuel
    → entry c chain id ≡ r
    → Returns c chain id (or_row now (db id) (contents c r)) (or_insert fuel db now id c r)
find_or_insert-cases fuel db now id c chain none v z f a =
    insert-Returns fuel db now id c chain (db id) v z f a refl
find_or_insert-cases fuel db now id c chain (some x) v z f a =
    (c, some x, refl, stays-Holds c chain id (some x) v a)

pub find_or_insert-Returns :
    (fuel : ℕ) (db : Database) (now id : ℕ) (c : Cache) (chain : ℕ → List ℕ)
    → IsCache c chain
    → 0 < id
    → length (chain (hash id)) < fuel
    → Returns c chain id (or_row now (db id) (view c chain id)) (find_or_insert fuel db now id c)
unfolding find_or_insert
find_or_insert-Returns fuel db now id c chain v z f =
    rw (nickcache_find-entry fuel c chain id v f)
      (find_or_insert-cases fuel db now id c chain (entry c chain id) v z f refl)

refreshed-Changes : (now : ℕ) (row : Row) → Changes (refreshed now row) (λ e. row_entry now row)
refreshed-Changes now row = record { next = λ n. refl; nick_id = λ n. refl; rest = λ n. refl }

write_row-Returns :
    (c : Cache) (chain : ℕ → List ℕ) (now id : ℕ) (row : Row) (cur : Entry) (c' : Cache)
    (r : Option ℕ)
    → Holds c chain id (some cur) c' r
    → Returns c chain id (some (row_entry now row)) (some (write_row now row c' r))
write_row-Returns c chain now id row cur c' none o = absurd (cc o.value)
write_row-Returns c chain now id row cur c' (some x) o = (
  put x (refreshed now row (c'.node x)) c',
  some x,
  refl,
  put-Holds (refreshed now row) (λ e. row_entry now row) c chain id cur c' x
      (refreshed-Changes now row) o,
)

or_row-some :
    (now : ℕ) (row : Row) (m : Option Entry) → (e : Entry) × (or_row now (some row) m ≡ some e)
or_row-some now row none = (row_entry now row, refl)
or_row-some now row (some e) = (e, refl)

-- On a nick that is in the database nickcache_update leaves what the database says.
update-Returns :
    (fuel : ℕ) (db : Database) (now id : ℕ) (c : Cache) (chain : ℕ → List ℕ) (row : Row)
    → IsCache c chain
    → 0 < id
    → length (chain (hash id)) < fuel
    → db id ≡ some row
    → Returns c chain id (some (row_entry now row)) (nickcache_update fuel db now id c)
unfolding nickcache_update
update-Returns fuel db now id c chain row v z f q =
    let (c', r, e, o) = find_or_insert-Returns fuel db now id c chain v z f in
    let (k, s) = or_row-some now row (view c chain id) in
    let o' : Holds c chain id (some k) c' r =
      subst (λ m. Holds c chain id m c' r) (ap (λ w. or_row now w (view c chain id)) q ∙ s) o in
    rw (e, q) (write_row-Returns c chain now id row k c' r o')

-- What retrieval gives: the entry, unless it is an hour old or missing, and then the database.
abbrev pub current : (Entry → ℕ) → ℕ → Row → Option Entry → Entry
current stamp now row none = row_entry now row
current stamp now row (some e) = if is_old now (stamp e) then row_entry now row else e

freshen-Returns :
    (stamp : Entry → ℕ) (fuel : ℕ) (db : Database) (now id : ℕ) (c : Cache) (chain : ℕ → List ℕ)
    (row : Row) (r : Option ℕ)
    → IsCache c chain
    → 0 < id
    → length (chain (hash id)) < fuel
    → db id ≡ some row
    → entry c chain id ≡ r
    → Returns c chain id
        (some (current stamp now row (contents c r)))
        (or_freshen (λ n. stamp (payload n)) fuel db now id c r)
freshen-Returns stamp fuel db now id c chain row none v z f q a =
    insert-Returns fuel db now id c chain (some row) v z f a q
freshen-Returns stamp fuel db now id c chain row (some x) v z f q a =
    elim (Bool-cases (is_old now (stamp (payload (c.node x))))) [
      | inl t ↦ rw t (update-Returns fuel db now id c chain row v z f q)
      | inr t ↦ rw t (c, some x, refl, stays-Holds c chain id (some x) v a)
    ]

find_fresh-Returns :
    (stamp : Entry → ℕ) (fuel : ℕ) (db : Database) (now id : ℕ) (c : Cache) (chain : ℕ → List ℕ)
    (row : Row)
    → IsCache c chain
    → 0 < id
    → length (chain (hash id)) < fuel
    → db id ≡ some row
    → Returns c chain id
        (some (current stamp now row (view c chain id)))
        (find_fresh (λ n. stamp (payload n)) fuel db now id c)
unfolding find_fresh
find_fresh-Returns stamp fuel db now id c chain row v z f q =
    rw (nickcache_find-entry fuel c chain id v f)
      (freshen-Returns stamp fuel db now id c chain row (entry c chain id) v z f q refl)

abbrev the : Entry → Option Entry → Entry
the e none = e
the e (some f) = f

read-Holds :
    {A : Type 0} (field : Entry → A) (zero_ : A) (c : Cache) (chain : ℕ → List ℕ) (id : ℕ)
    (cur : Entry) (c' : Cache) (r : Option ℕ)
    → Holds c chain id (some cur) c' r
    → read (λ n. field (payload n)) zero_ (c', r) ≡ (c', field cur)
read-Holds field zero_ c chain id cur c' none o = absurd (cc o.value)
read-Holds field zero_ c chain id cur c' (some x) o = ap (λ m. (c', field (the cur m))) o.value

-- A map after an operation that leaves `e` for `id`.
pub record Refines (c : Cache) (chain : ℕ → List ℕ) (id : ℕ) (e : Entry) (c' : Cache) : Type 0 where
  pub chain' : ℕ → List ℕ
  pub valid : IsCache c' chain'
  pub same : (k : ℕ) → view c' chain' k ≡ (if k == id then some e else view c chain k)

Holds-Refines :
    (c : Cache) (chain : ℕ → List ℕ) (id : ℕ) (e : Entry) (c' : Cache) (r : Option ℕ)
    → Holds c chain id (some e) c' r
    → Refines c chain id e c'
Holds-Refines c chain id e c' r o = record {
  chain' = o.chain';
  valid = o.valid;
  same = λ k. elim (Bool-cases (k == id)) [
    | inl t ↦
        let q : k ≡ id = ground (arith, t) in
        rw t (ap (view c' o.chain') q ∙ ap (contents c') o.found ∙ o.value)
    | inr t ↦ rw t (o.others k (ground (arith, t)))
  ];
}

-- In a cache in order, and with fuel for its chain, nickcache_get_status of a nick that is in the
-- database returns, and gives the status of its entry, or that of the database if there is no entry
-- or it is an hour old. The cache is still in order, and as a map it differs from the old one at
-- the nick at most, where it now has what was given.
pub nickcache_get_status-Refines :
    (fuel : ℕ) (db : Database) (now id : ℕ) (c : Cache) (chain : ℕ → List ℕ) (row : Row)
    → IsCache c chain
    → 0 < id
    → length (chain (hash id)) < fuel
    → db id ≡ some row
    → (c' : Cache) × (nickcache_get_status fuel db now id c
        ≡ some (c', (current (λ e. e.status_timestamp) now row (view c chain id)).status))
      × Refines c chain id (current (λ e. e.status_timestamp) now row (view c chain id)) c'
unfolding nickcache_get_status
nickcache_get_status-Refines fuel db now id c chain row v z f q =
    let cur = current (λ e. e.status_timestamp) now row (view c chain id) in
    let (c', r, e, o) =
      find_fresh-Returns (λ e. e.status_timestamp) fuel db now id c chain row v z f q in
    (
      c',
      rw e (ap some (read-Holds (λ e. e.status) no_bits c chain id cur c' r o)),
      Holds-Refines c chain id cur c' r o,
    )

change-Refines :
    (f : Node → Node) (g : Entry → Entry) (c : Cache) (chain : ℕ → List ℕ) (id : ℕ) (cur : Entry)
    (c' : Cache) (r : Option ℕ)
    → Changes f g
    → Holds c chain id (some cur) c' r
    → Refines c chain id (g cur) (change f (c', r))
change-Refines f g c chain id cur c' none h o = absurd (cc o.value)
change-Refines f g c chain id cur c' (some x) h o =
    Holds-Refines c chain id (g cur) (put x (f (c'.node x)) c') (some x)
      (put-Holds f g c chain id cur c' x h o)

-- What a setter starts from: the entry, or the database if there is none.
abbrev pub known : ℕ → Row → Option Entry → Entry
known now row none = row_entry now row
known now row (some e) = e

or_row-known :
    (now : ℕ) (row : Row) (m : Option Entry) → or_row now (some row) m ≡ some (known now row m)
or_row-known now row none = refl
or_row-known now row (some e) = refl

pub set_entry-Refines :
    (f : Node → Node) (g : Entry → Entry) (fuel : ℕ) (db : Database) (now id : ℕ) (c : Cache)
    (chain : ℕ → List ℕ) (row : Row)
    → Changes f g
    → IsCache c chain
    → 0 < id
    → length (chain (hash id)) < fuel
    → db id ≡ some row
    → (c' : Cache) × (set_entry f fuel db now id c ≡ some c')
      × Refines c chain id (g (known now row (view c chain id))) c'
unfolding set_entry
set_entry-Refines f g fuel db now id c chain row h v z w q =
    let (c', r, e, o) = find_or_insert-Returns fuel db now id c chain v z w in
    let k = known now row (view c chain id) in
    let o' : Holds c chain id (some k) c' r =
      subst (λ m. Holds c chain id m c' r)
        (ap (λ x. or_row now x (view c chain id)) q ∙ or_row-known now row (view c chain id)) o in
    (change f (c', r), rw e, change-Refines f g c chain id k c' r h o')
