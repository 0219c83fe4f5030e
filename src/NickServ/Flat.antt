-- ===== src/NickServ/Flat.antt =====
-- Links are one level deep, as long as users know their master.
use oftc_blitzed.Base.{
  ℕ, ◌≡◌, ◌≢◌, refl, sym, subst, ◌∙◌, true, false, Option, some, arith, ◌==◌, Bytes, Bool-cases,
  inl, inr,
}
use oftc_blitzed.NickServ.{
  Db, Env, User, Reply, row_of, link_of, has_status, nick_identified, mysql_findnick, mysql_getlink,
  nick_has_links, write_link, link_to, do_link, do_unlink, mysql_delnick,
}
use oftc_blitzed.NickServ.Rows.{
  IsLess, row_of-nick_has_links, write_link-links, write_link-link, mysql_delnick-IsLess,
}
use oftc_blitzed.NickServ.Links.{Leaves, do_link-cases, do_unlink-Leaves}

-- No nick is linked to one that is itself linked.
unfoldable pub IsFlat : Db → Type 0
IsFlat db = (i : ℕ) → link_of i db ≢ 0 → link_of (link_of i db) db ≡ 0

IsLess-IsFlat : (db db' : Db) → IsLess db.nicks db'.nicks → IsFlat db → IsFlat db'
unfolding IsFlat IsLess
IsLess-IsFlat db db' h f i o = elim (h i) [
  | inr e ↦ absurd (o e)
  | inl e ↦ elim (h (link_of i db)) [
    | inl q ↦ subst (λ j. link_of j db' ≡ 0) (sym e) (q ∙ f i (λ z. o (e ∙ z)))
    | inr q ↦ subst (λ j. link_of j db' ≡ 0) (sym e) q
  ]
]

root : (t : ℕ) (db : Db) → IsFlat db → mysql_getlink t db ≡ t → link_of t db ≡ 0
unfolding mysql_getlink IsFlat
root t db f e = elim (Bool-cases (link_of t db == 0)) [
  | inl h ↦ ground (arith, h)
  | inr h ↦
      let g : link_of t db ≡ t = rw h at e in
      subst (λ j. link_of j db ≡ 0) g (f t (ground (arith, h)))
]

-- A user who knows the master of his nick has no master, and nobody is linked to him, when the
-- master has no links.
lone :
    (real master : ℕ) (db : Db)
    → real ≢ 0
    → master ≡ mysql_getlink real db
    → nick_has_links master db.nicks ≡ false
    → (link_of real db ≡ 0) × ((i : ℕ) → link_of i db ≢ real)
unfolding mysql_getlink
lone real master db o e h = elim (Bool-cases (link_of real db == 0)) [
  | inl z ↦
      let same : master ≡ real = e ∙ rw z refl in
      (
        ground (arith, z),
        λ i.
            row_of-nick_has_links real i db.nicks o
              (subst (λ m. nick_has_links m db.nicks ≡ false) same h),
      )
  | inr z ↦
      let same : master ≡ link_of real db = e ∙ rw z refl in
      let some_master : master ≢ 0 = ground (arith, same, z) in
      absurd (row_of-nick_has_links master real db.nicks some_master h (sym same))
]

write_link-IsFlat :
    (env : Env) (real t : ℕ) (db : Db)
    → IsFlat db
    → real ≢ t
    → link_of t db ≡ 0
    → ((i : ℕ) → link_of i db ≢ real)
    → IsFlat (write_link env real t db)
unfolding IsFlat
write_link-IsFlat env real t db f o r l i h =
    let db' = write_link env real t db in
    let stays : (j : ℕ) → j ≢ real → link_of j db ≡ 0 → link_of j db' ≡ 0 = λ j a b.
      elim (write_link-links env real t j db) [ inl s ↦ s ∙ b | inr (q, _) ↦ absurd (a q) ] in
    elim (write_link-links env real t i db) [
      | inl s ↦
          subst (λ j. link_of j db' ≡ 0) (sym s) (stays (link_of i db) (l i) (f i (λ z. h (s ∙ z))))
      | inr (q, inl s) ↦ subst (λ j. link_of j db' ≡ 0) (sym s) (stays t (λ z. o (sym z)) r)
      | inr (q, inr s) ↦ absurd (h s)
    ]

-- LINK keeps the links one level deep, when the user has a nick_id that is the master of his nick.
pub do_link-IsFlat :
    (env : Env) (u : User) (args : Option (Bytes × Bytes)) (db : Db)
    → IsFlat db
    → u.nick_id ≡ mysql_getlink u.real_id db
    → IsFlat (do_link env u args db).0
do_link-IsFlat env u args db f e = elim (do_link-cases env u args db) [
  | inl q ↦ subst IsFlat (sym q) f
  | inr (t, o, n, h, g, q) ↦
      let (_, l) = lone u.real_id u.nick_id db n e h in
      subst IsFlat (sym q)
        (write_link-IsFlat env u.real_id t db f (λ z. o (sym z)) (root t db f g) l)
]

pub do_unlink-IsFlat :
    (env : Env) (u u' : User) (nick pass : Option Bytes) (db db' : Db) (r : Reply)
    → IsFlat db
    → do_unlink env u nick pass db ≡ some (u', db', r)
    → IsFlat db'
do_unlink-IsFlat env u u' nick pass db db' r f e =
    IsLess-IsFlat db db' (subst (Leaves db) e (do_unlink-Leaves env u nick pass db)) f

pub mysql_delnick-IsFlat : (id : ℕ) (db : Db) → IsFlat db → IsFlat (mysql_delnick id db)
mysql_delnick-IsFlat id db f = IsLess-IsFlat db (mysql_delnick id db) (mysql_delnick-IsLess id db) f

-- A user's nick_id is the master that his nick had earlier. When a link of a nick to his has come
-- since, LINK does not see it: it links a nick that others are linked to.
pub do_link-deepens :
    (env : Env) (u : User) (nick pass : Bytes) (i : ℕ) (db : Db)
    → env.disable_link ≡ false
    → nick_identified u db ≡ true
    → mysql_findnick nick db ≢ 0
    → mysql_findnick nick db ≢ u.real_id
    → has_status (λ n. n.verboten) (row_of (mysql_findnick nick db) db.nicks) ≡ false
    → nick_has_links u.nick_id db.nicks ≡ false
    → mysql_getlink (mysql_findnick nick db) db ≡ mysql_findnick nick db
    → env.check_nick_password pass (mysql_findnick nick db) ≡ true
    → env.chan_limit (mysql_findnick nick db) ≡ false
    → link_of i db ≡ u.real_id
    → i ≢ u.real_id
    → let db' = (do_link env u (some (nick, pass)) db).0 in
      (link_of i db' ≡ u.real_id) × (link_of u.real_id db' ≡ mysql_findnick nick db)
unfolding do_link link_to nick_identified
do_link-deepens env u nick pass i db a b c d e f g h k l m =
    let t = mysql_findnick nick db in
    let real : u.real_id == 0 ≡ false = ground (arith, b) in
    let row : has_status (λ n. n.identified) (row_of u.real_id db.nicks) ≡ true =
      ground (arith, b) in
    let c' : t == 0 ≡ false = ground (arith, c) in
    let d' : t == u.real_id ≡ false = ground (arith, d) in
    let g' : mysql_getlink t db == t ≡ true = ground (arith, g) in
    let result : (do_link env u (some (nick, pass)) db).0 ≡ write_link env u.real_id t db =
      rw (do_link, a, real, nick_identified, row, link_to, c', d', e, f, g', h, k) refl in
    let written = write_link-link env u.real_id t (λ n. n.identified) db row in
    let other : link_of i (write_link env u.real_id t db) ≡ u.real_id =
      elim (write_link-links env u.real_id t i db) [ inl s ↦ s ∙ l | inr (q, _) ↦ absurd (m q) ] in
    subst (λ v. (link_of i v ≡ u.real_id) × (link_of u.real_id v ≡ t)) (sym result) (other, written)
