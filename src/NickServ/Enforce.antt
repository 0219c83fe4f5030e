-- ===== src/NickServ/Enforce.antt =====
-- src/nickserv.c: who may use a nick. The table of nicks and the cache of src/cache.c are maps; a
-- cached status is one that is young enough to be used. A status is its set of bits, as in Cache.
-- What the program sends is a list, the last message first. IRC_MATCH and SHA1 in the database are
-- arguments. `none` is a read through a NULL pointer.
pub mod Status
pub mod Commands
pub mod Safe
pub mod Identify
pub mod Late
pub mod Stale
mod Examples
use oftc_blitzed.Base.{
  ℕ, ◌+◌, Bool, true, false, not, ◌&&◌, ◌||◌, List, [], ◌∷◌, ◌++◌, Option, none, some, ◌==◌,
  if◌then◌else◌, ltb, leb, Bytes, length, keep_if, mem,
}
use oftc_blitzed.Text.{stricmp, irc_stricmp, is_zero}
use oftc_blitzed.Cache.{Bits}

-- Numbers of bits: NS_VERBOTEN, NS_GUESTED and so on of include/services.h.
abbrev pub ns_verboten : ℕ
ns_verboten = 1

abbrev pub ns_guested : ℕ
ns_guested = 8

abbrev pub ns_kill_held : ℕ
ns_kill_held = 12

abbrev pub ns_on_access : ℕ
ns_on_access = 13

abbrev pub ns_recognized : ℕ
ns_recognized = 14

abbrev pub ns_identified : ℕ
ns_identified = 15

-- `status | bit`, and `status & ~NS_TEMPORARY`.
abbrev pub with_bit : ℕ → Bits → Bits
with_bit b s = λ i. i == b || s i

abbrev pub without_bit : ℕ → Bits → Bits
without_bit b s = λ i. not (i == b) && s i

abbrev pub without_temporary : Bits → Bits
without_temporary s = λ i. not (leb 8 i && leb i 15) && s i

-- A row of the table nick; NI_SUSPENDED and the flags after it.
pub record Row : Type 0 where
  pub nick : Bytes
  pub status : Bits
  pub id_stamp : ℕ
  pub last_usermask : Bytes
  pub last_seen : ℕ
  pub email : Bytes
  pub cloak_string : Bytes
  pub suspended : Bool
  pub secure : Bool
  pub enforce : Bool
  pub enforcequick : Bool
  pub ircop : Bool
  pub cloak : Bool

pub record User : Type 0 where
  pub nick : Bytes
  pub username : Bytes
  pub host : Bytes
  pub real_id : ℕ
  pub nick_id : ℕ
  pub services_stamp : ℕ
  pub my_signon : ℕ
  pub oper : Bool

pub data Kind : Type 0 where
  to_collide to_release : Kind

abbrev pub same_kind : Kind → Kind → Bool
same_kind to_collide to_collide = true
same_kind to_collide to_release = false
same_kind to_release to_collide = false
same_kind to_release to_release = true

-- Timeout of timeout.h, and struct my_timeout, which points to one.
pub record Timer : Type 0 where
  pub to : ℕ
  pub nick_id : ℕ
  pub kind : Kind
  pub timeout : ℕ
  pub settime : ℕ

pub record MyTimeout : Type 0 where
  pub nick_id : ℕ
  pub kind : Kind
  pub to : ℕ

-- Notices, commands to the network, and calls of other parts.
pub data Message : Type 0 where
  may_not_be_used forcenickchange_in_1_minute forcenickchange_in_20_seconds is_secure
        is_registered :
      Message
  identify_syntax not_registered x_suspended password_incorrect identify_succeeded not_ircop
        beg_set_email :
      Message
  recover_syntax release_syntax x_not_in_use x_not_registered no_recover_self recovered
        access_denied not_held released :
      Message
  forcenickchange_now : (guest : ℕ) → Message
  svsnick : (nick : Bytes) (guest : ℕ) → Message
  enforcer quit svsmode_r : (nick : Bytes) → Message
  svscloak : (nick cloak : Bytes) → Message
  kill : (nick : Bytes) → Message
  check_memos check_autojoins : Message

pub record Net : Type 0 where
  pub table : ℕ → Option Row
  pub cached : ℕ → Option Bits
  pub online : List User
  pub mine : List MyTimeout
  pub timeouts : List Timer
  pub next_to : ℕ
  pub counter : ℕ
  pub sent : List Message

pub record Env : Type 0 where
  pub no_split_recovery : Bool
  pub release_timeout : ℕ
  pub is_on_access : Bytes → Bytes → ℕ → Bool
  pub check_nick_password : Bytes → ℕ → Bool

abbrev pub send : Message → Net → Net
send m st = record st { sent = m ∷ st.sent }

abbrev pub map_row : (Row → Row) → Option Row → Option Row
map_row f none = none
map_row f (some r) = some (f r)

-- "UPDATE nick SET ... WHERE nick_id=%u"
abbrev pub update : ℕ → (Row → Row) → Net → Net
update id f st = record st { table = λ i. if i == id then map_row f (st.table i) else st.table i }

abbrev pub set_status : (Bits → Bits) → Row → Row
set_status f r = record r { status = f r.status }

abbrev pub row_status : Option Row → Option Bits
row_status none = none
row_status (some r) = some r.status

-- The entry of the cache, which nickcache_insert reads from the table when there is none.
abbrev pub seen : Option Bits → Option Row → Option Bits
seen none r = row_status r
seen (some s) r = some s

abbrev pub map_bits : (Bits → Bits) → Option Bits → Option Bits
map_bits f none = none
map_bits f (some s) = some (f s)

-- nickcache_add_status and nickcache_remove_status
abbrev pub cache_update : ℕ → (Bits → Bits) → Net → Net
cache_update id f st = record st {
  cached = λ i. if i == id then map_bits f (seen (st.cached i) (st.table i)) else st.cached i;
}

-- nickcache_update
abbrev pub cache_read : ℕ → Net → Net
cache_read id st = record st {
  cached = λ i. if i == id then row_status (st.table i) else st.cached i;
}

-- A read of the status puts it into the cache.
abbrev pub look : ℕ → Net → Net
look id st = record st {
  cached = λ i. if i == id then seen (st.cached i) (st.table i) else st.cached i;
}

abbrev pub has_bit : ℕ → Option Bits → Bool
has_bit b none = false
has_bit b (some s) = s b

abbrev pub get_nick_status : ℕ → ℕ → Net → Bool
get_nick_status b id st = has_bit b (seen (st.cached id) (st.table id))

unfoldable pub change_status : (Bits → Bits) → ℕ → Net → Net
change_status f id st = cache_update id f (update id (set_status f) st)

-- add_nick_status, and the two uses of remove_nick_status.
abbrev pub add_nick_status : ℕ → ℕ → Net → Net
add_nick_status b id st = change_status (with_bit b) id st

abbrev pub remove_nick_status : ℕ → ℕ → Net → Net
remove_nick_status b id st = change_status (without_bit b) id st

abbrev pub remove_temporary : ℕ → Net → Net
remove_temporary id st = change_status without_temporary id st

abbrev pub is_timer : ℕ → Kind → MyTimeout → Bool
is_timer id kind t = t.nick_id == id && same_kind t.kind kind

unfoldable pub rem_ns_timeout : ℕ → Kind → Net → Net
rem_ns_timeout id kind st = record st { mine = keep_if (λ t. not (is_timer id kind t)) st.mine }

abbrev pub tos : List MyTimeout → List ℕ
tos [] = []
tos (t ∷ l) = t.to ∷ tos l

unfoldable pub del_ns_timeout : ℕ → Kind → Net → Net
del_ns_timeout id kind st =
    let gone = tos (keep_if (is_timer id kind) st.mine) in
    record st {
      mine = keep_if (λ t. not (is_timer id kind t)) st.mine;
      timeouts = keep_if (λ (t : Timer). not (mem t.to gone)) st.timeouts;
    }

unfoldable pub add_ns_timeout : ℕ → ℕ → Kind → ℕ → Net → Net
add_ns_timeout now id kind delay st = record st {
  timeouts =
      record { to = st.next_to; nick_id = id; kind = kind; timeout = now + delay; settime = now }
      ∷ st.timeouts;
  mine = record { nick_id = id; kind = kind; to = st.next_to } ∷ st.mine;
  next_to = st.next_to + 1;
}

unfoldable pub finduser : Bytes → List User → Option User
finduser nick [] = none
finduser nick (u ∷ l) = if is_zero (irc_stricmp u.nick nick) then some u else finduser nick l

abbrev pub flag : (Row → Bool) → Option Row → Bool
flag p none = false
flag p (some r) = p r

-- "user@host"
abbrev pub usermask : User → Bytes
usermask u = u.username ++ b'@' ∷ u.host

abbrev pub is_recovered : Env → User → Net → Bool
is_recovered env u st =
    not env.no_split_recovery
    && flag
        (λ r.
          not (r.id_stamp == 0)
          && r.id_stamp == u.services_stamp
          && is_zero (stricmp r.last_usermask (usermask u)))
        (st.table u.real_id)

abbrev pub is_on : Env → User → Bool
is_on env u = env.is_on_access u.username u.host u.nick_id

abbrev pub if_enforced : Env → ℕ → User → Option Row → Net → Net
if_enforced env now u master st =
    if flag (λ r. r.enforce) master && not (is_on env u)
    then if flag (λ r. r.enforcequick) master
      then add_ns_timeout now u.real_id to_collide 20 (send forcenickchange_in_20_seconds st)
      else add_ns_timeout now u.real_id to_collide 60 (send forcenickchange_in_1_minute st)
    else st

abbrev pub recognize : ℕ → User → Net → Net
recognize now u st = cache_update u.real_id (with_bit ns_recognized) (
    update u.real_id
      (λ r. record r {
        status = with_bit ns_recognized r.status;
        last_seen = now;
        last_usermask = usermask u;
      })
      st)

-- validate_user for a nick that may be used, once the temporary bits are gone. `master` is the row
-- that the flags come from.
unfoldable pub validate_free : Env → ℕ → User → Option Row → Net → Bool × Net
unfolding add_ns_timeout change_status
validate_free env now u master st =
    if is_recovered env u st
    then (true, send check_autojoins (add_nick_status ns_identified u.real_id st))
    else (let st' = if is_on env u then add_nick_status ns_on_access u.real_id st else st in
        if not (flag (λ r. r.secure) master) && is_on env u then (true, recognize now u st') else (
          false,
          if_enforced env now u master
              (send (if flag (λ r. r.secure) master then is_secure else is_registered) st'),
        ))

abbrev pub may_not_use : User → Net → Bool
may_not_use u st = flag (λ r. r.status ns_verboten || r.suspended) (st.table u.real_id)

unfoldable pub validate_user : Env → ℕ → User → Net → Bool × Net
unfolding validate_free add_ns_timeout change_status
validate_user env now u st =
    if u.real_id == 0
    then (false, st)
    else if may_not_use u st
    then (
      false,
      add_ns_timeout now u.real_id to_collide 60
          (send forcenickchange_in_1_minute (send may_not_be_used st)),
    )
    else validate_free env now u (st.table u.nick_id) (remove_temporary u.real_id st)

abbrev pub is_guested : ℕ → Net → Bool
is_guested id st = flag (λ r. r.status ns_guested) (st.table id)

-- The UPDATE for a nick that is guested leaves the cache alone.
unfoldable pub cancel_user : Env → ℕ → User → Net → Net
unfolding change_status add_ns_timeout del_ns_timeout
cancel_user env now u st =
    if u.real_id == 0
    then st
    else del_ns_timeout u.real_id to_collide (
        if is_guested u.real_id st
        then add_nick_status ns_kill_held u.real_id (
            add_ns_timeout now u.real_id to_release env.release_timeout
              (send (enforcer u.nick) (update u.real_id (set_status without_temporary) st)))
        else remove_temporary u.real_id st)

abbrev pub nick_identified : User → Net → Bool
nick_identified u st = not (u.real_id == 0) && get_nick_status ns_identified u.real_id st

abbrev pub nick_recognized : User → Net → Bool
nick_recognized u st =
    not (u.real_id == 0)
    && (get_nick_status ns_identified u.real_id st || get_nick_status ns_recognized u.real_id st)

-- What collide does to a nick of this name; `guest` is the number in the new nick.
unfoldable pub collide_nick : ℕ → Bool → Bytes → Net → Net
unfolding change_status del_ns_timeout
collide_nick id from_timeout nick st =
    let st' = if from_timeout then st else del_ns_timeout id to_collide st in
    add_nick_status ns_guested id (
      send (svsnick nick st'.counter)
        (send (forcenickchange_now st'.counter) (record st' { counter = st'.counter + 1 })))

-- A nick without a row has a name of NULL.
abbrev pub collide : ℕ → Bool → Net → Option Row → Option Net
collide id from_timeout st none = none
collide id from_timeout st (some r) = some (collide_nick id from_timeout r.nick st)

abbrev pub release : ℕ → Bool → Net → Option Row → Option Net
release id from_timeout st none = none
release id from_timeout st (some r) = some (
    remove_nick_status ns_kill_held id
      (send (quit r.nick) (if from_timeout then st else del_ns_timeout id to_release st)))

abbrev pub is_later : ℕ → Option User → Bool
is_later settime none = true
is_later settime (some u) = ltb settime u.my_signon

-- They identified, are gone, or took the nick later: nothing is done.
abbrev pub collide_if_there : Timer → Net → Option Row → Option Net
collide_if_there t st none = none
collide_if_there t st (some r) =
    if is_later t.settime (finduser r.nick st.online)
    then some st
    else some (collide_nick t.nick_id true r.nick st)

unfoldable pub timeout_collide : Timer → Net → Option Net
unfolding collide_nick rem_ns_timeout finduser
timeout_collide t st =
    let st' = look t.nick_id (rem_ns_timeout t.nick_id to_collide st) in
    if get_nick_status ns_identified t.nick_id st'
    then some st'
    else collide_if_there t st' (st'.table t.nick_id)

pub timeout_release : Timer → Net → Option Net
unfolding change_status rem_ns_timeout del_ns_timeout
timeout_release t st =
    let st' = rem_ns_timeout t.nick_id to_release st in
    release t.nick_id true st' (st'.table t.nick_id)
