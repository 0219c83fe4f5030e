-- ===== src/MemoServ.antt =====
-- src/memoserv.c: memos to nicks and channels. The table of memos is a list in the order of time,
-- the one that renumber_memos sorts by; the database compares owners without regard to case. What
-- the tables of nicks and channels say, and mysql_build_query of src/mysql.c are arguments.
-- Notices to those who get a memo are left out.
pub mod Numbers
pub mod Room
pub mod Limit
mod Examples
use oftc_blitzed.Base.{
  ℕ, zero, suc, ◌+◌, ◌-◌, ◌%◌, Bool, true, false, not, ◌&&◌, ◌||◌, List, [], ◌∷◌, ◌++◌, Option,
  none, some, ◌==◌, if◌then◌else◌, ltb, leb, Bytes, codes,
}
use oftc_blitzed.Text.{stricmp, is_zero, islower, isupper}
use oftc_blitzed.Users.Mask.{has}

-- Rows of memo and memoinfo; `unread` is MF_UNREAD, and a `max` of -1 is none.
pub record Memo : Type 0 where
  pub memo_id : ℕ
  pub owner : Bytes
  pub idx : ℕ
  pub unread : Bool
  pub time : ℕ
  pub sender : Bytes
  pub text : Bytes

pub record MemoInfo : Type 0 where
  pub memoinfo_id : ℕ
  pub owner : Bytes
  pub max : Option ℕ

pub record Db : Type 0 where
  pub memos : List Memo
  pub infos : List MemoInfo
  pub next_id : ℕ

pub record User : Type 0 where
  pub nick : Bytes
  pub real_id : ℕ
  pub lastmemosend : ℕ
  pub recognized : Bool
  pub identified : Bool
  pub services_admin : Bool

-- `may_send` is check_access for the user and CA_MEMO_SEND; `picks` are the numbers that a list
-- like 2-5,7 names.
pub record Env : Type 0 where
  pub findnick : Bytes → ℕ
  pub getlink : ℕ → ℕ
  pub nick_of : ℕ → Option Bytes
  pub findchan : Bytes → ℕ
  pub nick_verboten : ℕ → Bool
  pub chan_verboten : ℕ → Bool
  pub may_send : ℕ → Bool
  pub picks : Bytes → ℕ → Bool
  pub send_delay : ℕ
  pub rot13 : Bool

pub data Reply : Type 0 where
  syntax identify_required x_forbidden x_not_registered please_wait gets_no_memos too_many_memos
        access_denied sent :
      Reply
  no_memos deleted : Reply

abbrev pub owned : Bytes → Memo → Bool
owned owner m = is_zero (stricmp m.owner owner)

unfoldable pub count_memos : Bytes → List Memo → ℕ
count_memos owner [] = 0
count_memos owner (m ∷ l) = if owned owner m then suc (count_memos owner l) else count_memos owner l

-- The memos of an owner get the numbers from n + 1 on. The owner is written as it was given.
unfoldable pub number_from : ℕ → Bytes → List Memo → List Memo
number_from n owner [] = []
number_from n owner (m ∷ l) =
    if owned owner m
    then record m { owner = owner; idx = n + 1 } ∷ number_from (n + 1) owner l
    else m ∷ number_from n owner l

abbrev pub renumber_memos : Bytes → List Memo → List Memo
renumber_memos owner l = number_from 0 owner l

abbrev pub info_of : Bytes → List MemoInfo → Option MemoInfo
info_of owner [] = none
info_of owner (i ∷ l) = if is_zero (stricmp i.owner owner) then some i else info_of owner l

abbrev pub is_chan : Bytes → Bool
is_chan [] = false
is_chan (c ∷ s) = c == b'#'

-- What get_memoinfo_from_owner finds: a row, or a name that is forbidden or has none.
pub data Found : Type 0 where
  found : MemoInfo → Found
  verboten unknown : Found

abbrev pub found_row : Option MemoInfo → Found
found_row none = unknown
found_row (some i) = found i

unfoldable pub get_memoinfo_from_owner : Env → Bytes → List MemoInfo → Found
get_memoinfo_from_owner env owner l =
    if is_chan owner
    then if env.findchan owner == 0
      then unknown
      else if env.chan_verboten (env.findchan owner)
      then verboten
      else found_row (info_of owner l)
    else if env.findnick owner == 0
    then unknown
    else if env.nick_verboten (env.findnick owner)
    then verboten
    else found_row (info_of owner l)

abbrev pub rotate : ℕ → ℕ
rotate c =
    if isupper c
    then (c - b'A' + 13) % 26 + b'A'
    else if islower c
    then (c - b'a' + 13) % 26 + b'a'
    else c

unfoldable pub rot13 : Bytes → Bytes
rot13 [] = []
rot13 (c ∷ s) = rotate c ∷ rot13 s

-- send_memo: the new memo has the number 0 until the memos are renumbered.
unfoldable pub send_memo : Env → ℕ → Bytes → Bytes → Bytes → Db → Db
unfolding number_from rot13
send_memo env now name source text db =
    let new : Memo = record {
      memo_id = db.next_id;
      owner = name;
      idx = 0;
      unread = true;
      time = now;
      sender = source;
      text = if env.rot13 then rot13 text else text;
    } in
    record db { memos = renumber_memos name (db.memos ++ new ∷ []); next_id = db.next_id + 1 }

abbrev pub name_or : Bytes → Option Bytes → Bytes
name_or name none = name
name_or name (some s) = s

-- A nick stands for its master.
abbrev pub receiver : Env → Bytes → Bytes
receiver env name =
    if has b'#' name
    then name
    else if env.getlink (env.findnick name) == 0
    then name
    else name_or name (env.nick_of (env.getlink (env.findnick name)))

abbrev pub is_max : Option ℕ → ℕ → Bool
is_max none n = false
is_max (some max) n = ltb 0 max && leb max n

abbrev pub is_no_memos : Option ℕ → Bool
is_no_memos none = false
is_no_memos (some max) = max == 0

unfoldable pub send_to : Env → ℕ → User → Bytes → Bytes → Db → Found → User × Db × Reply
unfolding send_memo count_memos
send_to env now u name text db verboten = (u, db, x_forbidden)
send_to env now u name text db unknown = (u, db, x_not_registered)
send_to env now u name text db (found i) =
    if ltb 0 env.send_delay && ltb now (u.lastmemosend + env.send_delay) && not u.services_admin
    then (record u { lastmemosend = now }, db, please_wait)
    else if is_no_memos i.max && not u.services_admin
    then (u, db, gets_no_memos)
    else if is_max i.max (count_memos name db.memos) && not u.services_admin
    then (u, db, too_many_memos)
    else if is_chan name && not (env.findchan name == 0) && not (env.may_send (env.findchan name))
    then (u, db, access_denied)
    else (record u { lastmemosend = now }, send_memo env now name u.nick text db, sent)

-- SEND name text
pub do_send : Env → ℕ → User → Option (Bytes × Bytes) → Db → User × Db × Reply
unfolding has get_memoinfo_from_owner send_to
do_send env now u none db = (u, db, syntax)
do_send env now u (some (name, text)) db =
    if not u.recognized
    then (u, db, identify_required)
    else send_to env now u (receiver env name) text db
        (get_memoinfo_from_owner env (receiver env name) db.infos)

abbrev pub remove : (Memo → Bool) → List Memo → List Memo
remove p [] = []
remove p (m ∷ l) = if p m then remove p l else m ∷ remove p l

abbrev pub isdigit : Bytes → Bool
isdigit [] = false
isdigit (c ∷ s) = leb b'0' c && leb c b'9'

unfoldable pub delete_memos : Env → Bytes → Bytes → Db → Db
unfolding number_from
delete_memos env owner numstr db =
    if isdigit numstr
    then record db {
      memos = renumber_memos owner (remove (λ m. owned owner m && env.picks numstr m.idx) db.memos);
    }
    else record db { memos = remove (owned owner) db.memos }

abbrev pub del_owned : Env → Bytes → Option Bytes → Db → Db × Reply
del_owned env owner none db = (db, syntax)
del_owned env owner (some numstr) db =
    if not (isdigit numstr) && not (is_zero (stricmp numstr (codes "ALL")))
    then (db, syntax)
    else if count_memos owner db.memos == 0
    then (db, no_memos)
    else (delete_memos env owner numstr db, deleted)

abbrev pub del_nick : Env → Option Bytes → Option Bytes → Db → Option (Db × Reply)
del_nick env numstr none db = none
del_nick env numstr (some owner) db = some (del_owned env owner numstr db)

-- DEL [channel] numbers; `none` is a read through a NULL pointer.
pub do_del : Env → User → Option Bytes → Option Bytes → Db → Option (Db × Reply)
unfolding count_memos delete_memos
do_del env u (some chan) numstr db =
    if env.findchan chan == 0
    then some (db, x_not_registered)
    else if env.chan_verboten (env.findchan chan)
    then some (db, x_forbidden)
    else if not (env.may_send (env.findchan chan))
    then some (db, access_denied)
    else some (del_owned env chan numstr db)
do_del env u none numstr db =
    if not u.identified
    then some (db, identify_required)
    else del_nick env numstr (env.nick_of u.real_id) db
