-- ===== src/NickServ.antt =====
-- src/nickserv.c: registered nicks and the links between them. The tables of the database are
-- lists. The database compares names without regard to case. The status of a nick is read from the
-- table, which the cache of src/cache.c answers for. What finduser of src/users.c and
-- check_chan_limit of src/chanserv.c answer are arguments, and so is what MySQL does: SHA1 in
-- check_nick_password, and smysql_escape_string.
pub mod Rows
pub mod Links
pub mod Flat
pub mod Enforce
mod Examples
use oftc_blitzed.Base.{
  ℕ, Bool, true, false, not, ◌&&◌, ◌||◌, List, [], ◌∷◌, ◌++◌, Option, none, some, ◌==◌,
  if◌then◌else◌, Bytes, keep_if,
}
use oftc_blitzed.Text.{stricmp, is_zero}

-- A row of the table nick; `verboten` and `identified` are NS_VERBOTEN and NS_IDENTIFIED.
pub record Nick : Type 0 where
  pub nick_id : ℕ
  pub nick : Bytes
  pub link_id : ℕ
  pub flags : ℕ
  pub channelmax : ℕ
  pub language : ℕ
  pub verboten : Bool
  pub identified : Bool

-- Rows of nickaccess, memo and memoinfo.
pub record Access : Type 0 where
  pub nick_id : ℕ
  pub userhost : Bytes

pub record Memo : Type 0 where
  pub owner : Bytes
  pub text : Bytes

pub record MemoInfo : Type 0 where
  pub owner : Bytes
  pub max : ℕ

pub record Db : Type 0 where
  pub nicks : List Nick
  pub access : List Access
  pub memos : List Memo
  pub memoinfo : List MemoInfo

-- real_id is the nick's own ID, nick_id that of its master when the user took the nick.
pub record User : Type 0 where
  pub real_id : ℕ
  pub nick_id : ℕ

-- `chan_limit id` is check_chan_limit(id) >= 0.
pub record Env : Type 0 where
  pub disable_link : Bool
  pub check_nick_password : Bytes → ℕ → Bool
  pub chan_limit : ℕ → Bool
  pub is_online : Bytes → Bool
  pub escape : Bytes → Bytes
  pub services_admin : Bool

pub data Reply : Type 0 where
  link_disabled syntax not_registered identify_required x_not_registered no_link_same : Reply
  x_forbidden x_has_links x_is_link password_incorrect too_many_channels linked : Reply
  x_not_linked not_linked x_unlinked unlinked : Reply

-- "SELECT ... FROM nick WHERE nick_id=%u"
unfoldable pub row_of : ℕ → List Nick → Option Nick
row_of id [] = none
row_of id (n ∷ l) = if n.nick_id == id then some n else row_of id l

abbrev pub link_id_of : Option Nick → ℕ
link_id_of none = 0
link_id_of (some n) = n.link_id

abbrev pub name_of : Option Nick → Bytes
name_of none = []
name_of (some n) = n.nick

-- The link of a nick; 0 is none.
abbrev pub link_of : ℕ → Db → ℕ
link_of id db = link_id_of (row_of id db.nicks)

pub mysql_getlink : ℕ → Db → ℕ
mysql_getlink id db = if link_of id db == 0 then id else link_of id db

abbrev pub has_status : (Nick → Bool) → Option Nick → Bool
has_status p none = false
has_status p (some n) = p n

unfoldable pub nick_identified : User → Db → Bool
unfolding row_of
nick_identified u db =
    not (u.real_id == 0) && has_status (λ n. n.identified) (row_of u.real_id db.nicks)

-- The last row that the query gives.
abbrev pub findnick_from : Bytes → List Nick → ℕ → ℕ
findnick_from nick [] id = id
findnick_from nick (n ∷ l) id =
    findnick_from nick l (if is_zero (stricmp n.nick nick) then n.nick_id else id)

abbrev pub mysql_findnick : Bytes → Db → ℕ
mysql_findnick nick db = findnick_from nick db.nicks 0

-- Whether nick_has_links counts a nick.
unfoldable pub nick_has_links : ℕ → List Nick → Bool
nick_has_links id [] = false
nick_has_links id (n ∷ l) = if n.link_id == id then true else nick_has_links id l

-- "UPDATE nick SET ... WHERE nick_id=%u"
unfoldable pub update : ℕ → (Nick → Nick) → List Nick → List Nick
update id f [] = []
update id f (n ∷ l) = (if n.nick_id == id then f n else n) ∷ update id f l

abbrev pub remove_access : ℕ → List Access → List Access
remove_access id l = keep_if (λ (a : Access). not (a.nick_id == id)) l

abbrev pub give_memos : Bytes → Bytes → List Memo → List Memo
give_memos to from [] = []
give_memos to from (m ∷ l) =
    (if is_zero (stricmp m.owner from) then record m { owner = to } else m) ∷ give_memos to from l

-- The rows that do_link writes for a link that is allowed.
unfoldable pub write_link : Env → ℕ → ℕ → Db → Db
unfolding row_of update
write_link env id target db =
    let name = name_of (row_of target db.nicks) in
    let nicks = update id (λ n. record n { link_id = target }) db.nicks in
    record db {
      nicks =
          if env.is_online (env.escape name)
          then nicks
          else update target (λ n. record n { identified = true }) nicks;
      access = remove_access id db.access;
      memos = give_memos name (name_of (row_of id db.nicks)) db.memos;
    }

-- LINK nick password. A wrong password goes to bad_password as well.
unfoldable pub link_to : Env → User → Bytes → ℕ → Db → Db × Reply
unfolding row_of mysql_getlink nick_has_links write_link
link_to env u pass target db =
    if target == 0
    then (db, x_not_registered)
    else if target == u.real_id
    then (db, no_link_same)
    else if has_status (λ n. n.verboten) (row_of target db.nicks)
    then (db, x_forbidden)
    else if nick_has_links u.nick_id db.nicks
    then (db, x_has_links)
    else if not (mysql_getlink target db == target)
    then (db, x_is_link)
    else if not (env.check_nick_password pass target)
    then (db, password_incorrect)
    else if env.chan_limit target
    then (db, too_many_channels)
    else (write_link env u.real_id target db, linked)

pub do_link : Env → User → Option (Bytes × Bytes) → Db → Db × Reply
unfolding link_to row_of
do_link env u none db = if env.disable_link then (db, link_disabled) else (db, syntax)
do_link env u (some (nick, pass)) db =
    if env.disable_link
    then (db, link_disabled)
    else if u.real_id == 0
    then (db, not_registered)
    else if not (nick_identified u db)
    then (db, identify_required)
    else link_to env u pass (mysql_findnick nick db) db

-- "SELECT max FROM memoinfo WHERE owner='%s'"; without a row the program reads through NULL.
abbrev pub memo_max : Bytes → List MemoInfo → Option ℕ
memo_max owner [] = none
memo_max owner (m ∷ l) = if is_zero (stricmp m.owner owner) then some m.max else memo_max owner l

abbrev pub set_memo_max : Bytes → ℕ → List MemoInfo → List MemoInfo
set_memo_max owner max [] = []
set_memo_max owner max (m ∷ l) =
    (if is_zero (stricmp m.owner owner) then record m { max = max } else m)
    ∷ set_memo_max owner max l

-- The access list of one nick for another.
abbrev pub copy_access : ℕ → ℕ → List Access → List Access
copy_access id from [] = []
copy_access id from (a ∷ l) =
    if a.nick_id == from
    then record { nick_id = id; userhost = a.userhost } ∷ copy_access id from l
    else copy_access id from l

abbrev pub take_access : ℕ → ℕ → List Access → List Access
take_access id from l = elim (copy_access id from l) [
  | [] ↦ l
  | a ∷ c ↦ remove_access id l ++ a ∷ c
]

abbrev pub delinked : Nick → Nick → Nick
delinked master n = record n {
  link_id = 0;
  flags = master.flags;
  channelmax = master.channelmax;
  language = master.language;
}

unfoldable pub write_delink : Nick → Nick → ℕ → Db → Db
unfolding update
write_delink n master max db = record db {
  nicks = update n.nick_id (delinked master) db.nicks;
  access = take_access n.nick_id master.nick_id db.access;
  memoinfo = set_memo_max n.nick max db.memoinfo;
}

abbrev pub delink_max : Nick → Nick → Db → Option ℕ → Option Db
delink_max n master db none = none
delink_max n master db (some max) = some (write_delink n master max db)

-- A master that has no row leaves master_ni as it was on the stack: `none`.
abbrev pub delink_from : Nick → Db → Option Nick → Option Db
delink_from n db none = none
delink_from n db (some master) = delink_max n master db (memo_max master.nick db.memoinfo)

abbrev pub delink_row : Db → Option Nick → Option Db
delink_row db none = none
delink_row db (some n) =
    if n.link_id == 0 then some db else delink_from n db (row_of n.link_id db.nicks)

pub delink : ℕ → Db → Option Db
unfolding row_of write_delink
delink id db = delink_row db (row_of id db.nicks)

abbrev pub replied {ℓ} : {A : Type ℓ} → A → Option Db → Option (Db × A)
replied a none = none
replied a (some db) = some (db, a)

-- UNLINK nick password: what the row of the nick says.
unfoldable pub unlink_nick : Env → Option Bytes → Option Nick → Db → Option (Db × Reply)
unfolding delink
unlink_nick env pass none db = some (db, x_not_registered)
unlink_nick env none (some n) db =
    if n.link_id == 0
    then some (db, x_not_linked)
    else if not env.services_admin
    then some (db, syntax)
    else replied x_unlinked (delink n.nick_id db)
unlink_nick env (some pass) (some n) db =
    if n.link_id == 0
    then some (db, x_not_linked)
    else if not env.services_admin && not (env.check_nick_password pass n.nick_id)
    then some (db, password_incorrect)
    else replied x_unlinked (delink n.nick_id db)

abbrev pub replied_to {ℓ} : {A : Type ℓ} → User → Option (Db × A) → Option (User × Db × A)
replied_to u none = none
replied_to u (some (db, a)) = some (u, db, a)

-- UNLINK without a nick.
unfoldable pub unlink_own : User → Option Nick → Db → Option (User × Db × Reply)
unfolding delink
unlink_own u none db = some (u, db, not_registered)
unlink_own u (some n) db =
    if not (nick_identified u db)
    then some (u, db, identify_required)
    else if n.link_id == 0
    then some (u, db, not_linked)
    else replied_to (record u { nick_id = n.nick_id }) (replied unlinked (delink n.nick_id db))

pub do_unlink : Env → User → Option Bytes → Option Bytes → Db → Option (User × Db × Reply)
unfolding row_of unlink_nick unlink_own
do_unlink env u none pass db = unlink_own u (row_of u.real_id db.nicks) db
do_unlink env u (some nick) pass db =
    replied_to u (unlink_nick env pass (row_of (mysql_findnick nick db) db.nicks) db)

unfoldable pub mysql_remove_links : ℕ → List Nick → List Nick
mysql_remove_links id [] = []
mysql_remove_links id (n ∷ l) =
    (if n.link_id == id then record n { link_id = 0 } else n) ∷ mysql_remove_links id l

unfoldable pub mysql_delete_nick : ℕ → List Nick → List Nick
mysql_delete_nick id [] = []
mysql_delete_nick id (n ∷ l) =
    if n.nick_id == id then mysql_delete_nick id l else n ∷ mysql_delete_nick id l

-- What mysql_delnick does to the tables of NickServ but for suspensions: links, access list, memos
-- and the nick, in this order.
pub mysql_delnick : ℕ → Db → Db
unfolding row_of mysql_remove_links mysql_delete_nick
mysql_delnick id db =
    let owner = name_of (row_of id (mysql_remove_links id db.nicks)) in
    record {
      nicks = mysql_delete_nick id (mysql_remove_links id db.nicks);
      access = remove_access id db.access;
      memos = keep_if (λ (m : Memo). not (is_zero (stricmp m.owner owner))) db.memos;
      memoinfo = keep_if (λ (m : MemoInfo). not (is_zero (stricmp m.owner owner))) db.memoinfo;
    }
