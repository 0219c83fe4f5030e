-- ===== src/Access.antt =====
-- src/chanserv.c: who has access to a registered channel (get_access, check_access), and whether he
-- is opped or voiced (check_valid_op, check_should_op, check_should_voice). What the database, the
-- user's record, the configuration and the clock say of a user and a channel is a record of facts.
pub mod Ops
mod Examples
use oftc_blitzed.Base.{
  ℕ, Bool, true, false, not, ◌&&◌, ◌||◌, List, [], ◌∷◌, ◌==◌, if◌then◌else◌, leb, Bytes,
}

-- A level is an int.
pub data ℤ : Type 0 where
  pos : ℕ → ℤ
  negsuc : ℕ → ℤ

unfoldable pub leqℤ : ℤ → ℤ → Bool
leqℤ (pos m) (pos n) = leb m n
leqℤ (pos m) (negsuc n) = false
leqℤ (negsuc m) (pos n) = true
leqℤ (negsuc m) (negsuc n) = leb n m

abbrev pub eqℤ : ℤ → ℤ → Bool
eqℤ m n = leqℤ m n && leqℤ n m

abbrev pub access_founder : ℤ
access_founder = pos 10000

abbrev pub access_invalid : ℤ
access_invalid = negsuc 9999

-- The abilities that the functions here ask for.
pub data Ability : Type 0 where
  autoop autovoice autodeop nojoin other : Ability

pub record Facts : Type 0 where
  pub channel_id : ℕ
  pub secure : Bool
  pub secureops : Bool
  pub leaveops : Bool
  pub verboten : Bool
  pub get_chan_level : Ability → ℤ
  pub nick_id : ℕ
  pub is_founder : Bool
  pub nick_identified : Bool
  pub nick_recognized : Bool
  pub chanaccess_level : ℤ
  pub is_oper : Bool
  pub cs_op_oper : Bool
  pub restrict_delay_over : Bool

pub get_access : Facts → ℤ
get_access f =
    if f.channel_id == 0 || f.nick_id == 0
    then pos 0
    else if f.is_founder
    then access_founder
    else if f.nick_identified || f.nick_recognized && not f.secure
    then f.chanaccess_level
    else pos 0

-- Abilities that are had from below.
abbrev pub is_negative : Ability → Bool
is_negative autodeop = true
is_negative nojoin = true
is_negative autoop = false
is_negative autovoice = false
is_negative other = false

abbrev pub is_autodeop : Ability → Bool
is_autodeop autodeop = true
is_autodeop nojoin = false
is_autodeop autoop = false
is_autodeop autovoice = false
is_autodeop other = false

pub check_access : Facts → Ability → Bool
unfolding get_access
check_access f what =
    let user_level = get_access f in
    let what_level = f.get_chan_level what in
    if eqℤ user_level access_founder
    then not (is_negative what)
    else if is_autodeop what && eqℤ user_level (pos 0) && f.secureops
    then true
    else if eqℤ what_level access_invalid
    then false
    else if is_negative what
    then leqℤ user_level what_level
    else leqℤ what_level user_level

-- 1 if the user may stay an operator; otherwise "MODE %s -o %s" is sent.
unfoldable pub check_valid_op : Facts → Bool → Bool
unfolding check_access
check_valid_op f serverop =
    if f.channel_id == 0 || f.leaveops
    then true
    else if f.cs_op_oper && f.is_oper
    then true
    else if f.verboten
    then false
    else if serverop && f.restrict_delay_over && not (check_access f autoop)
    then false
    else not (check_access f autodeop)

-- Names that begin with + or & are left alone.
abbrev pub is_local : Bytes → Bool
is_local [] = false
is_local (c ∷ s) = c == b'+' || c == b'&'

-- What check_should_op and check_should_voice have in common.
pub should_have : Ability → Facts → Bytes → Bool
unfolding check_access
should_have what f chan =
    if is_local chan
    then false
    else if f.channel_id == 0 || f.verboten
    then false
    else if f.secure && not f.nick_identified
    then false
    else if check_access f what
    then not (leqℤ (f.get_chan_level what) (pos 0))
    else false

-- 1 where "MODE %s +o %s" is sent.
pub check_should_op : Facts → Bytes → Bool
unfolding should_have
check_should_op f chan = should_have autoop f chan

-- 1 where "MODE %s +v %s" is sent.
unfoldable pub check_should_voice : Facts → Bytes → Bool
unfolding should_have
check_should_voice f chan = should_have autovoice f chan
