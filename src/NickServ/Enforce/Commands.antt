-- ===== src/NickServ/Enforce/Commands.antt =====
-- IDENTIFY, RECOVER and RELEASE of src/nickserv.c, with bad_password of src/actions.c, which may kill
-- the user: do_kill and delete_user of src/users.c, as far as the nick and the list of users go. The
-- attempts are those of the user who gives the command. check_nick_password answers 0 or 1.
use oftc_blitzed.Base.{
  ℕ, Bool, false, not, ◌&&◌, ◌||◌, List, [], ◌∷◌, Option, none, some, ◌==◌, if◌then◌else◌, leb,
  Bytes, length,
}
use oftc_blitzed.Text.{irc_stricmp, is_zero}
use oftc_blitzed.Actions.{Attempts, Config, bad_password}
use oftc_blitzed.NickServ.Enforce.{
  ns_verboten, ns_kill_held, ns_recognized, ns_identified, with_bit, Row, User, Message, Net, Env,
  send, update, cache_read, look, get_nick_status, change_status, del_ns_timeout, finduser, flag,
  cancel_user, usermask, collide_nick, collide, release, identify_syntax, not_registered,
  x_suspended, password_incorrect, identify_succeeded, not_ircop, beg_set_email, recover_syntax,
  x_not_in_use, x_not_registered, no_recover_self, recovered, access_denied, not_held, released,
  svsmode_r, svscloak, kill, check_memos, check_autojoins,
}

unfoldable pub mysql_update_last_seen : ℕ → User → ℕ → Net → Net
mysql_update_last_seen now u b st =
    update u.real_id
      (λ r. record r {
        status = with_bit b r.status;
        id_stamp = u.services_stamp;
        last_seen = now;
        last_usermask = usermask u;
      })
      st

abbrev pub when : Bool → Message → Net → Net
when b m st = if b then send m st else st

abbrev pub send_cloak : User → Option Row → Net → Net
send_cloak u none st = st
send_cloak u (some r) st =
    when (not (length r.cloak_string == 0)) (svscloak u.nick r.cloak_string) st

-- What IDENTIFY does when the password is right.
unfoldable pub identify : ℕ → User → Net → Net
unfolding mysql_update_last_seen
identify now u st =
    let known = cache_read u.real_id (mysql_update_last_seen now u ns_identified st) in
    let row = st.table u.real_id in
    let answered = when (flag (λ r. leb (length r.email) 1) row) beg_set_email (
      when (u.oper && not (flag (λ r. r.ircop) (st.table u.nick_id))) not_ircop
        (send identify_succeeded (send (svsmode_r u.nick) known))) in
    let fresh = not (get_nick_status ns_recognized u.real_id known) in
    send check_autojoins (
      if fresh && flag (λ r. r.cloak) row
      then send_cloak u row (when fresh check_memos answered)
      else when fresh check_memos answered)

-- "UPDATE nick SET last_seen=%d ..." for a user who is identified or recognized, by the table.
abbrev pub quit_row : ℕ → Row → Row
quit_row now r = record r {
  last_seen =
      if not (r.status ns_verboten) && (r.status ns_identified || r.status ns_recognized)
      then now
      else r.last_seen;
}

abbrev pub mysql_quit_user : ℕ → User → Net → Net
mysql_quit_user now u st = update u.real_id (quit_row now) st

abbrev pub unlink_user : Bytes → List User → List User
unlink_user nick [] = []
unlink_user nick (u ∷ l) = if is_zero (irc_stricmp u.nick nick) then l else u ∷ unlink_user nick l

unfoldable pub delete_user : Env → ℕ → User → Net → Net
unfolding cancel_user
delete_user env now u st =
    let gone = cancel_user env now u st in record gone { online = unlink_user u.nick gone.online }

unfoldable pub do_kill : Env → ℕ → Bytes → Net → Net
unfolding finduser delete_user
do_kill env now nick st = elim (finduser nick st.online) [
  | none ↦ st
  | some u ↦ delete_user env now u (if u.nick_id == 0 then st else mysql_quit_user now u st)
]

unfoldable pub kill_user : Env → ℕ → Bytes → Net → Net
unfolding do_kill
kill_user env now nick st =
    if length nick == 0 then st else do_kill env now nick (send (kill nick) st)

-- A wrong password.
unfoldable pub fail : Env → Config → ℕ → User → Attempts → Net → Attempts × Net
unfolding bad_password kill_user
fail env cfg now u a st =
    let (a', over) = bad_password cfg now a in
    (a', if over then kill_user env now u.nick st else st)

-- IDENTIFY password
unfoldable pub do_identify :
    Env → Config → ℕ → User → Option Bytes → Attempts → Net → Attempts × Net
unfolding identify fail
do_identify env cfg now u none a st = (a, send identify_syntax st)
do_identify env cfg now u (some pass) a st =
    if u.real_id == 0
    then (a, send not_registered st)
    else if flag (λ r. r.suspended) (st.table u.real_id)
    then (a, send x_suspended st)
    else if not (env.check_nick_password pass u.real_id)
    then fail env cfg now u a (send password_incorrect st)
    else (a, identify now u st)

abbrev pub replied : Message → Attempts → Option Net → Option (Attempts × Net)
replied m a none = none
replied m a (some st) = some (a, send m st)

-- Whether a user may take a nick back: by the password, or without one by the access list.
abbrev pub may_take : Env → User → Option Bytes → ℕ → Option Row → Bool
may_take env u none id row = not (flag (λ r. r.secure) row) && env.is_on_access u.username u.host id
may_take env u (some pass) id row = env.check_nick_password pass id

abbrev pub denied : Env → Config → ℕ → User → Option Bytes → Attempts → Net → Attempts × Net
denied env cfg now u none a st = (a, send access_denied st)
denied env cfg now u (some pass) a st = fail env cfg now u a (send access_denied st)

-- RECOVER, for the user of the nick.
abbrev pub recover_from :
    Env
    → Config
    → ℕ
    → User
    → Bytes
    → Option Bytes
    → Attempts
    → Net
    → Option User
    → Option (Attempts × Net)
recover_from env cfg now u nick pass a st none = some (a, send x_not_in_use st)
recover_from env cfg now u nick pass a st (some u2) =
    if u2.real_id == 0
    then some (a, send x_not_registered st)
    else if is_zero (irc_stricmp nick u.nick)
    then some (a, send no_recover_self st)
    else if may_take env u pass u2.real_id (st.table u2.real_id)
    then replied recovered a (collide u2.real_id false st (st.table u2.real_id))
    else some (denied env cfg now u pass a st)

unfoldable pub do_recover :
    Env
    → Config
    → ℕ
    → User
    → Option (Bytes × Option Bytes)
    → Attempts
    → Net
    → Option (Attempts × Net)
unfolding collide_nick finduser fail
do_recover env cfg now u none a st = some (a, send recover_syntax st)
do_recover env cfg now u (some (nick, pass)) a st =
    recover_from env cfg now u nick pass a st (finduser nick st.online)

-- RELEASE; `id` is mysql_findnick of the nick.
unfoldable pub do_release :
    Env → Config → ℕ → User → ℕ → Option Bytes → Attempts → Net → Option (Attempts × Net)
unfolding change_status del_ns_timeout fail
do_release env cfg now u id pass a st =
    if id == 0
    then some (a, send x_not_registered st)
    else if not (get_nick_status ns_kill_held id st)
    then some (a, send not_held (look id st))
    else if may_take env u pass id (st.table id)
    then replied released a (release id false (look id st) ((look id st).table id))
    else some (denied env cfg now u pass a (look id st))
