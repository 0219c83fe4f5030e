-- ===== src/NickServ/Links.antt =====
-- Links never make a circle.
use oftc_blitzed.Base.{
  ℕ, zero, suc, ◌+◌, ◌<◌, ◌≤◌, ◌≡◌, ◌≢◌, refl, sym, ap, subst, ◌∙◌, ◌⊎◌, Bool, true, false, not,
  ◌&&◌, List, Option, none, some, arith, ◌==◌, if◌then◌else◌, Bytes, Bool-cases, inl, inr,
}
use oftc_blitzed.NickServ.{
  Nick, Db, Env, User, Reply, not_linked, identify_required, x_not_linked, syntax, x_unlinked,
  unlinked, password_incorrect, row_of, link_of, nick_identified, mysql_findnick, mysql_getlink,
  nick_has_links, write_link, link_to, do_link, write_delink, memo_max, delink_from, delink_max,
  delink_row, delink, replied, replied_to, unlink_nick, unlink_own, do_unlink, mysql_delnick,
}
use oftc_blitzed.NickServ.Rows.{IsLess, write_link-links, write_delink-IsLess, mysql_delnick-IsLess}

-- The links of a table lead down.
unfoldable pub IsRanked : (ℕ → ℕ) → Db → Type 0
IsRanked rank db = (i : ℕ) → link_of i db ≢ 0 → rank (link_of i db) < rank i

pub IsLess-IsRanked :
    (rank : ℕ → ℕ) (db db' : Db) → IsLess db.nicks db'.nicks → IsRanked rank db → IsRanked rank db'
unfolding IsLess IsRanked
IsLess-IsRanked rank db db' h r i o = ground (arith, h i, r i)

-- A link to a nick that is none itself.
abbrev pub below : ℕ → (ℕ → ℕ) → ℕ → ℕ
below target rank i = if i == target then 0 else rank i + 1

pub mysql_getlink-root :
    (rank : ℕ → ℕ) (t : ℕ) (db : Db) → IsRanked rank db → mysql_getlink t db ≡ t → link_of t db ≡ 0
unfolding mysql_getlink IsRanked
mysql_getlink-root rank t db r e = ground (arith, e, r t)

below-down :
    (target i y : ℕ) (rank : ℕ → ℕ)
    → i ≢ target
    → (y ≡ target) ⊎ (rank y < rank i)
    → below target rank y < below target rank i
below-down target i y rank o h = ground (arith, o, h)

write_link-IsRanked :
    (rank : ℕ → ℕ) (env : Env) (id target : ℕ) (db : Db)
    → IsRanked rank db
    → id ≢ target
    → link_of target db ≡ 0
    → IsRanked (below target rank) (write_link env id target db)
unfolding IsRanked
write_link-IsRanked rank env id target db r o e i h =
    let db' = write_link env id target db in
    elim (write_link-links env id target i db) [
      | inl s ↦
          let other : i ≢ target = λ q. h (s ∙ (ap (λ j. link_of j db) q ∙ e)) in
          let down : rank (link_of i db) < rank i = r i (λ z. h (s ∙ z)) in
          below-down target i (link_of i db') rank other
            (inr (subst (λ y. rank y < rank i) (sym s) down))
      | inr (q, inl s) ↦ below-down target i (link_of i db') rank (λ z. o (sym q ∙ z)) (inl s)
      | inr (q, inr s) ↦ absurd (h s)
    ]

-- LINK, on every branch.
pub link_to-cases :
    (env : Env) (u : User) (pass : Bytes) (target : ℕ) (db : Db)
    → ((link_to env u pass target db).0 ≡ db)
      ⊎ (target ≢ u.real_id)
        × (nick_has_links u.nick_id db.nicks ≡ false)
        × (mysql_getlink target db ≡ target)
        × (env.check_nick_password pass target ≡ true)
        × ((link_to env u pass target db).0 ≡ write_link env u.real_id target db)
unfolding link_to
link_to-cases env u pass target db = ground arith

pub do_link-cases :
    (env : Env) (u : User) (args : Option (Bytes × Bytes)) (db : Db)
    → ((do_link env u args db).0 ≡ db)
      ⊎ (t : ℕ) × (t ≢ u.real_id)
        × (u.real_id ≢ 0)
        × (nick_has_links u.nick_id db.nicks ≡ false)
        × (mysql_getlink t db ≡ t)
        × ((do_link env u args db).0 ≡ write_link env u.real_id t db)
unfolding do_link
do_link-cases env u none db = ground arith
do_link-cases env u (some (nick, pass)) db = elim (Bool-cases env.disable_link) [
  | inl a ↦ inl (rw (do_link, a) refl)
  | inr a ↦ elim (Bool-cases (u.real_id == 0)) [
    | inl b ↦ inl (rw (do_link, a, b) refl)
    | inr b ↦ elim (Bool-cases (nick_identified u db)) [
      | inr c ↦ inl (rw (do_link, a, b, c) refl)
      | inl c ↦
          let t = mysql_findnick nick db in
          let same : (do_link env u (some (nick, pass)) db).0 ≡ (link_to env u pass t db).0 =
            rw (do_link, a, b, c) refl in
          elim (link_to-cases env u pass t db) [
            | inl e ↦ inl (same ∙ e)
            | inr (o, n, g, _, e) ↦ inr (t, o, ground (arith, b), n, g, same ∙ e)
          ]
    ]
  ]
]

-- UNLINK takes links away only.
IsLess-refl : (l : List Nick) → IsLess l l
unfolding IsLess
IsLess-refl l i = inl refl

some-injective {ℓ} : {A : Type ℓ} → (a b : A) → some a ≡ some b → a ≡ b
some-injective a b e = cc

delink_row-IsLess :
    (db db' : Db) (o : Option Nick) → delink_row db o ≡ some db' → IsLess db.nicks db'.nicks
delink_row-IsLess db db' none e = absurd (cc)
delink_row-IsLess db db' (some n) e = elim (Bool-cases (n.link_id == 0)) [
  | inl h ↦
      subst (λ (d : Db). IsLess db.nicks d.nicks) (some-injective db db' (rw h at e))
        (IsLess-refl db.nicks)
  | inr h ↦ by_master (row_of n.link_id db.nicks) (rw h at e)
]
  where
    by_max :
        (master : Nick) (m : Option ℕ)
        → delink_max n master db m ≡ some db'
        → IsLess db.nicks db'.nicks
    by_max master none e = absurd (cc)
    by_max master (some max) e =
        subst (λ (d : Db). IsLess db.nicks d.nicks)
          (some-injective (write_delink n master max db) db' e)
          (write_delink-IsLess n master max db)

    by_master : (m : Option Nick) → delink_from n db m ≡ some db' → IsLess db.nicks db'.nicks
    by_master none e = absurd (cc)
    by_master (some master) e = by_max master (memo_max master.nick db.memoinfo) e

delink-IsLess : (id : ℕ) (db db' : Db) → delink id db ≡ some db' → IsLess db.nicks db'.nicks
unfolding delink
delink-IsLess id db db' e = delink_row-IsLess db db' (row_of id db.nicks) e

-- What a command leaves: a table with less links, where it does not crash.
abbrev pub After : Db → Option (Db × Reply) → Type 0
After db none = Unit {0}
After db (some (d, r)) = IsLess db.nicks d.nicks

replied-After :
    (db : Db) (a : Reply) (o : Option Db)
    → ((d : Db) → o ≡ some d → IsLess db.nicks d.nicks)
    → After db (replied a o)
replied-After db a none h = tt
replied-After db a (some d) h = h d refl

unless-After :
    (db : Db) (b : Bool) (r : Reply) (o : Option (Db × Reply))
    → After db o
    → After db (if b then some (db, r) else o)
unless-After db true r o h = IsLess-refl db.nicks
unless-After db false r o h = h

delink-After : (db : Db) (r : Reply) (id : ℕ) → After db (replied r (delink id db))
delink-After db r id = replied-After db r (delink id db) (delink-IsLess id db)

unlink_nick-After :
    (env : Env) (pass : Option Bytes) (o : Option Nick) (db : Db)
    → After db (unlink_nick env pass o db)
unfolding unlink_nick
unlink_nick-After env pass none db = IsLess-refl db.nicks
unlink_nick-After env none (some n) db =
    unless-After db (n.link_id == 0) x_not_linked
      (if not env.services_admin
        then some (db, syntax)
        else replied x_unlinked (delink n.nick_id db))
      (unless-After db (not env.services_admin) syntax (replied x_unlinked (delink n.nick_id db))
        (delink-After db x_unlinked n.nick_id))
unlink_nick-After env (some pass) (some n) db =
    let wrong = not env.services_admin && not (env.check_nick_password pass n.nick_id) in
    unless-After db (n.link_id == 0) x_not_linked
      (if wrong then some (db, password_incorrect) else replied x_unlinked (delink n.nick_id db))
      (unless-After db wrong password_incorrect (replied x_unlinked (delink n.nick_id db))
        (delink-After db x_unlinked n.nick_id))

-- The same with the user.
abbrev pub Leaves : Db → Option (User × Db × Reply) → Type 0
Leaves db none = Unit {0}
Leaves db (some (u, d, r)) = IsLess db.nicks d.nicks

replied_to-Leaves :
    (u : User) (db : Db) (o : Option (Db × Reply)) → After db o → Leaves db (replied_to u o)
replied_to-Leaves u db none h = tt
replied_to-Leaves u db (some (d, r)) h = h

unless-Leaves :
    (u : User) (db : Db) (b : Bool) (r : Reply) (o : Option (User × Db × Reply))
    → Leaves db o
    → Leaves db (if b then some (u, db, r) else o)
unless-Leaves u db true r o h = IsLess-refl db.nicks
unless-Leaves u db false r o h = h

unlink_own-Leaves : (u : User) (o : Option Nick) (db : Db) → Leaves db (unlink_own u o db)
unfolding unlink_own
unlink_own-Leaves u none db = IsLess-refl db.nicks
unlink_own-Leaves u (some n) db =
    let own =
      replied_to (record u { nick_id = n.nick_id }) (replied unlinked (delink n.nick_id db)) in
    unless-Leaves u db (not (nick_identified u db)) identify_required
      (if n.link_id == 0 then some (u, db, not_linked) else own)
      (unless-Leaves u db (n.link_id == 0) not_linked own (
        replied_to-Leaves (record u { nick_id = n.nick_id }) db
          (replied unlinked (delink n.nick_id db)) (delink-After db unlinked n.nick_id)))

pub do_unlink-Leaves :
    (env : Env) (u : User) (nick pass : Option Bytes) (db : Db)
    → Leaves db (do_unlink env u nick pass db)
unfolding do_unlink
do_unlink-Leaves env u none pass db = unlink_own-Leaves u (row_of u.real_id db.nicks) db
do_unlink-Leaves env u (some nick) pass db =
    let o = row_of (mysql_findnick nick db) db.nicks in
    replied_to-Leaves u db (unlink_nick env pass o db) (unlink_nick-After env pass o db)

-- LINK, UNLINK and the loss of a nick, by users and in environments of any kind.
pub data Step (db : Db) : Db → Type 0 where
  by_link :
      (env : Env) (u : User) (args : Option (Bytes × Bytes)) → Step db (do_link env u args db).0
  by_unlink :
      (env : Env) (u u' : User) (nick pass : Option Bytes) (db' : Db) (r : Reply)
      → do_unlink env u nick pass db ≡ some (u', db', r)
      → Step db db'
  by_drop : (id : ℕ) → Step db (mysql_delnick id db)

pub data Reach (db : Db) : Db → Type 0 where
  start : Reach db db
  next : (b c : Db) → Reach db b → Step b c → Reach db c

Step-IsRanked :
    (db db' : Db) (rank : ℕ → ℕ) → IsRanked rank db → Step db db' → (r : ℕ → ℕ) × IsRanked r db'
Step-IsRanked db db' rank h (by_link env u args) = elim (do_link-cases env u args db) [
  | inl e ↦ (rank, subst (IsRanked rank) (sym e) h)
  | inr (t, o, _, _, g, e) ↦ (
    below t rank,
    subst (IsRanked (below t rank)) (sym e) (
        write_link-IsRanked rank env u.real_id t db h (λ q. o (sym q))
          (mysql_getlink-root rank t db h g)),
  )
]
Step-IsRanked db db' rank h (by_unlink env u u' nick pass d r e) =
    (rank, IsLess-IsRanked rank db d (subst (Leaves db) e (do_unlink-Leaves env u nick pass db)) h)
Step-IsRanked db db' rank h (by_drop id) =
    (rank, IsLess-IsRanked rank db (mysql_delnick id db) (mysql_delnick-IsLess id db) h)

Reach-IsRanked :
    (db db' : Db) (rank : ℕ → ℕ) → IsRanked rank db → Reach db db' → (r : ℕ → ℕ) × IsRanked r db'
Reach-IsRanked db db' rank h start = (rank, h)
Reach-IsRanked db db' rank h (next b c p s) =
    let (r, k) = Reach-IsRanked db b rank h p in Step-IsRanked b c r k s

-- The nick that so many links lead to; 0 when they end before.
unfoldable pub follow : ℕ → ℕ → Db → ℕ
follow zero i db = i
follow (suc k) i db = let rest = follow k (link_of i db) db in if link_of i db == 0 then 0 else rest

follow-rank :
    (rank : ℕ → ℕ) (db : Db)
    → IsRanked rank db
    → (k i : ℕ) → (follow k i db ≡ 0) ⊎ (rank (follow k i db) ≤ rank i)
unfolding follow IsRanked
follow-rank rank db h zero i = inr (omega arith)
follow-rank rank db h (suc k) i = ground (arith, h i, follow-rank rank db h k (link_of i db))

follow-acyclic :
    (rank : ℕ → ℕ) (db : Db) → IsRanked rank db → (k i : ℕ) → i ≢ 0 → follow (suc k) i db ≢ i
unfolding follow IsRanked
follow-acyclic rank db h k i o = ground (arith, h i, follow-rank rank db h k (link_of i db))

-- From a table without links, by LINK, UNLINK and the loss of nicks in any order, no table is
-- reached in which links lead from a nick back to it.
pub Reach-acyclic :
    (db db' : Db)
    → ((i : ℕ) → link_of i db ≡ 0)
    → Reach db db'
    → (k i : ℕ) → i ≢ 0
    → follow (suc k) i db' ≢ i
unfolding IsRanked
Reach-acyclic db db' h p k i o =
    let (rank, r) = Reach-IsRanked db db' (λ j. 0) (λ j q. absurd (q (h j))) p in
    follow-acyclic rank db' r k i o
