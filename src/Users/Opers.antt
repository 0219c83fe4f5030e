-- ===== src/Users/Opers.antt =====
-- src/users.c: new_user, delete_user, finduser, do_quit and do_umode with usercnt and opcnt. The
-- table of users is the list of the users that a search goes through. Counts are int32, by their
-- residues. What +R asks of the database, and notices, are left out.
pub mod Count
pub mod Reach
mod Examples
use oftc_blitzed.Base.{
  ℕ, ◌+◌, ◌%◌, Bool, true, false, not, ◌&&◌, List, [], ◌∷◌, Option, none, some, ◌==◌, if◌then◌else◌,
  Bytes,
}
use oftc_blitzed.Text.{stricmp, irc_stricmp, is_zero, strscpy}

-- UMODE_r, UMODE_i, UMODE_w, UMODE_g, UMODE_s and UMODE_o
pub data Umode : Type 0 where
  umode_r umode_i umode_w umode_g umode_s umode_o : Umode

pub is_umode : Umode → Umode → Bool
is_umode umode_r umode_r = true
is_umode umode_i umode_i = true
is_umode umode_w umode_w = true
is_umode umode_g umode_g = true
is_umode umode_s umode_s = true
is_umode umode_o umode_o = true
is_umode _ _ = false

abbrev pub Modes : Type 0
Modes = Umode → Bool

pub record Online : Type 0 where
  pub nick : Bytes
  pub mode : Modes

pub record Users : Type 0 where
  pub userlist : List Online
  pub usercnt : ℕ
  pub opcnt : ℕ

abbrev pub no_modes : Modes
no_modes m = false

abbrev pub plus_one : ℕ → ℕ
plus_one n = (n + 1) % 4294967296

abbrev pub minus_one : ℕ → ℕ
minus_one n = (n + 4294967295) % 4294967296

-- NICKMAX is 32.
pub new_user : Bytes → Users → Users
unfolding strscpy
new_user nick n = record {
  userlist = record { nick = strscpy [] nick 32; mode = no_modes } ∷ n.userlist;
  usercnt = plus_one n.usercnt;
  opcnt = n.opcnt;
}

pub finduser : Bytes → List Online → Option Online
finduser nick [] = none
finduser nick (u ∷ l) = if is_zero (irc_stricmp u.nick nick) then some u else finduser nick l

-- The user that finduser finds is taken out, or replaced.
pub unlink_user : Bytes → List Online → List Online
unlink_user nick [] = []
unlink_user nick (u ∷ l) = if is_zero (irc_stricmp u.nick nick) then l else u ∷ unlink_user nick l

pub set_modes : Bytes → Modes → List Online → List Online
set_modes nick m [] = []
set_modes nick m (u ∷ l) =
    if is_zero (irc_stricmp u.nick nick) then record u { mode = m } ∷ l else u ∷ set_modes nick m l

pub delete_user : Bytes → Online → Users → Users
unfolding unlink_user
delete_user nick u n = record {
  userlist = unlink_user nick n.userlist;
  usercnt = minus_one n.usercnt;
  opcnt = if u.mode umode_o then minus_one n.opcnt else n.opcnt;
}

-- The last quit and the sessions are left to the other components.
pub do_quit : Bytes → Users → Users
unfolding finduser delete_user
do_quit source n = elim (finduser source n.userlist) [ none ↦ n | some u ↦ delete_user source u n ]

-- SVSMODE of NickServ, with +a or -a.
pub data Sent : Type 0 where
  plus_a minus_a : Sent

-- In the loop of do_umode.
pub record Turn : Type 0 where
  pub add : Bool
  pub mode : Modes
  pub opcnt : ℕ
  pub sent : List Sent

abbrev pub with_mode : Umode → Turn → Turn
with_mode m t = record t { mode = λ k. if is_umode m k then t.add else t.mode k }

abbrev pub count_oper : Turn → Turn
count_oper t = record t { opcnt = if t.add then plus_one t.opcnt else minus_one t.opcnt }

-- A mode +a stands only with an oper who is a Services admin.
abbrev pub check_admin : Bool → Turn → Turn
check_admin admin t =
    if t.mode umode_o && admin
    then if t.add then t else record t { sent = plus_a ∷ t.sent }
    else if t.add
    then record t { sent = minus_a ∷ t.sent }
    else t

pub umode_step : Bool → ℕ → Turn → Turn
unfolding is_umode
umode_step admin c t =
    if c == b'+'
    then record t { add = true }
    else if c == b'-'
    then record t { add = false }
    else if c == b'R'
    then with_mode umode_r t
    else if c == b'a'
    then check_admin admin t
    else if c == b'i'
    then with_mode umode_i t
    else if c == b'w'
    then with_mode umode_w t
    else if c == b'g'
    then with_mode umode_g t
    else if c == b's'
    then with_mode umode_s t
    else if c == b'o'
    then count_oper (with_mode umode_o t)
    else t

pub umode_run : Bool → Bytes → Turn → Turn
unfolding umode_step
umode_run admin [] t = t
umode_run admin (c ∷ s) t = umode_run admin s (umode_step admin c t)

abbrev pub start : Users → Online → Turn
start n u = record { add = true; mode = u.mode; opcnt = n.opcnt; sent = [] }

abbrev pub finish : Bytes → Turn → Users → Users × List Sent
finish nick t n =
    (record n { userlist = set_modes nick t.mode n.userlist; opcnt = t.opcnt }, t.sent)

-- Only a user changes the modes of the user.
pub do_umode : Bool → Bytes → Bytes → Bytes → Users → Users × List Sent
unfolding finduser set_modes umode_run
do_umode admin source nick modes n =
    if is_zero (stricmp source nick)
    then elim (finduser source n.userlist) [
      | none ↦ (n, [])
      | some u ↦ finish source (umode_run admin modes (start n u)) n
    ]
    else (n, [])
