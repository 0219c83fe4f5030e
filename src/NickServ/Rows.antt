-- ===== src/NickServ/Rows.antt =====
-- What the statements of the database do to the links.
use oftc_blitzed.Base.{
  ℕ, ◌≡◌, ◌≢◌, refl, sym, subst, ◌⊎◌, Bool, true, false, List, [], ◌∷◌, arith, ◌==◌, Bool-cases,
  inl, inr,
}
use oftc_blitzed.NickServ.{
  Nick, Db, Env, row_of, link_id_of, link_of, name_of, has_status, nick_has_links, update, delinked,
  write_link, write_delink, mysql_remove_links, mysql_delete_nick, mysql_delnick,
}

-- The link that the list has for a nick.
abbrev pub link_in : ℕ → List Nick → ℕ
link_in i l = link_id_of (row_of i l)

-- Every link is kept or taken away.
unfoldable pub IsLess : List Nick → List Nick → Type 0
IsLess l l' = (i : ℕ) → (link_in i l' ≡ link_in i l) ⊎ (link_in i l' ≡ 0)

-- A change of other columns.
pub update-links :
    (id i : ℕ) (f : Nick → Nick) (l : List Nick)
    → ((n : Nick) → ((f n).nick_id ≡ n.nick_id) × ((f n).link_id ≡ n.link_id))
    → link_in i (update id f l) ≡ link_in i l
unfolding row_of update
update-links id i f [] h = refl
update-links id i f (n ∷ l) h = ground (arith, update-links id i f l h, h n)

-- A change of the link itself.
pub update-other :
    (id i : ℕ) (f : Nick → Nick) (l : List Nick)
    → ((n : Nick) → (f n).nick_id ≡ n.nick_id)
    → i ≢ id
    → link_in i (update id f l) ≡ link_in i l
unfolding row_of update
update-other id i f [] h o = refl
update-other id i f (n ∷ l) h o = ground (arith, update-other id i f l h o, h n)

pub update-same :
    (id t : ℕ) (f : Nick → Nick) (l : List Nick)
    → ((n : Nick) → ((f n).nick_id ≡ n.nick_id) × ((f n).link_id ≡ t))
    → (link_in id (update id f l) ≡ t) ⊎ (link_in id (update id f l) ≡ 0)
unfolding row_of update
update-same id t f [] h = inr refl
update-same id t f (n ∷ l) h = ground (arith, update-same id t f l h, h n)

pub row_of-nick_has_links :
    (id i : ℕ) (l : List Nick) → id ≢ 0 → nick_has_links id l ≡ false → link_in i l ≢ id
unfolding row_of nick_has_links
row_of-nick_has_links id i [] o h = λ e. o (sym e)
row_of-nick_has_links id i (n ∷ l) o h = ground (arith, row_of-nick_has_links id i l o)

pub mysql_remove_links-IsLess : (id : ℕ) (l : List Nick) → IsLess l (mysql_remove_links id l)
unfolding row_of mysql_remove_links IsLess
mysql_remove_links-IsLess id [] i = inl refl
mysql_remove_links-IsLess id (n ∷ l) i = ground (arith, mysql_remove_links-IsLess id l i)

mysql_delete_nick-other :
    (id i : ℕ) (l : List Nick) → i ≢ id → link_in i (mysql_delete_nick id l) ≡ link_in i l
unfolding row_of mysql_delete_nick
mysql_delete_nick-other id i [] o = refl
mysql_delete_nick-other id i (n ∷ l) o = ground (arith, mysql_delete_nick-other id i l o)

mysql_delete_nick-same : (id : ℕ) (l : List Nick) → link_in id (mysql_delete_nick id l) ≡ 0
unfolding row_of mysql_delete_nick
mysql_delete_nick-same id [] = refl
mysql_delete_nick-same id (n ∷ l) = ground (arith, mysql_delete_nick-same id l)

pub mysql_delete_nick-IsLess : (id : ℕ) (l : List Nick) → IsLess l (mysql_delete_nick id l)
unfolding IsLess
mysql_delete_nick-IsLess id l i = elim (Bool-cases (i == id)) [
  | inl h ↦
      let e : i ≡ id = ground (arith, h) in
      inr
        (subst (λ j. link_in j (mysql_delete_nick id l) ≡ 0) (sym e) (mysql_delete_nick-same id l))
  | inr h ↦ inl (mysql_delete_nick-other id i l (ground (arith, h)))
]

pub IsLess-trans : (l l' l'' : List Nick) → IsLess l l' → IsLess l' l'' → IsLess l l''
unfolding IsLess
IsLess-trans l l' l'' h k i = ground (arith, h i, k i)

pub mysql_delnick-IsLess : (id : ℕ) (db : Db) → IsLess db.nicks (mysql_delnick id db).nicks
unfolding mysql_delnick
mysql_delnick-IsLess id db =
    IsLess-trans db.nicks (mysql_remove_links id db.nicks)
      (mysql_delete_nick id (mysql_remove_links id db.nicks))
      (mysql_remove_links-IsLess id db.nicks)
      (mysql_delete_nick-IsLess id (mysql_remove_links id db.nicks))

pub write_delink-IsLess :
    (n master : Nick) (max : ℕ) (db : Db) → IsLess db.nicks (write_delink n master max db).nicks
unfolding write_delink IsLess
write_delink-IsLess n master max db i = elim (Bool-cases (i == n.nick_id)) [
  | inl h ↦
      let e : i ≡ n.nick_id = ground (arith, h) in
      let gone = update-same n.nick_id 0 (delinked master) db.nicks (λ m. (refl, refl)) in
      inr (
        subst (λ j. link_in j (update n.nick_id (delinked master) db.nicks) ≡ 0) (sym e)
          (ground (arith, gone)))
  | inr h ↦
      inl (update-other n.nick_id i (delinked master) db.nicks (λ m. refl) (ground (arith, h)))
]

set_link-links :
    (id target i : ℕ) (l : List Nick)
    → let l' = update id (λ n. record n { link_id = target }) l in
      (link_in i l' ≡ link_in i l) ⊎ (i ≡ id) × ((link_in i l' ≡ target) ⊎ (link_in i l' ≡ 0))
set_link-links id target i l = elim (Bool-cases (i == id)) [
  | inl h ↦
      let e : i ≡ id = ground (arith, h) in
      let l' = update id (λ n. record n { link_id = target }) l in
      inr (
        e,
        subst (λ j. (link_in j l' ≡ target) ⊎ (link_in j l' ≡ 0)) (sym e)
            (update-same id target (λ n. record n { link_id = target }) l (λ m. (refl, refl))),
      )
  | inr h ↦
      inl (update-other id i (λ n. record n { link_id = target }) l (λ m. refl) (ground (arith, h)))
]

-- After a link from one nick to another the link of the first is the other, or it has no row; all
-- else stays.
pub write_link-links :
    (env : Env) (id target i : ℕ) (db : Db)
    → (link_of i (write_link env id target db) ≡ link_of i db)
      ⊎ (i ≡ id)
        × ((link_of i (write_link env id target db) ≡ target)
            ⊎ (link_of i (write_link env id target db) ≡ 0))
unfolding write_link
write_link-links env id target i db =
    let nicks = update id (λ n. record n { link_id = target }) db.nicks in
    let first = set_link-links id target i db.nicks in
    elim (Bool-cases (env.is_online (env.escape (name_of (row_of target db.nicks))))) [
      | inl h ↦ rw h first
      | inr h ↦ rw h (
          rw (update-links target i (λ n. record n { identified = true }) nicks (λ m. (refl, refl)))
            first)
    ]

update-sets :
    (id t : ℕ) (p : Nick → Bool) (l : List Nick)
    → has_status p (row_of id l) ≡ true
    → link_in id (update id (λ n. record n { link_id = t }) l) ≡ t
unfolding row_of update
update-sets id t p [] h = absurd (cc)
update-sets id t p (n ∷ l) h = ground (arith, update-sets id t p l)

-- The link is written when the nick has a row.
pub write_link-link :
    (env : Env) (id target : ℕ) (p : Nick → Bool) (db : Db)
    → has_status p (row_of id db.nicks) ≡ true
    → link_of id (write_link env id target db) ≡ target
unfolding write_link
write_link-link env id target p db e =
    let nicks = update id (λ n. record n { link_id = target }) db.nicks in
    elim (Bool-cases (env.is_online (env.escape (name_of (row_of target db.nicks))))) [
      | inl h ↦ rw h (update-sets id target p db.nicks e)
      | inr h ↦ rw h (
          rw
            (update-links target id (λ n. record n { identified = true }) nicks (λ m. (refl, refl)))
            (update-sets id target p db.nicks e))
    ]
