-- ===== src/Channel/Lock.antt =====
-- src/chanserv.c: check_modes, which brings the modes of a channel in line with its mode lock, and
-- the end of do_cmode of src/channels.c, which calls it. A key that differs from the locked one is
-- first taken off by a call of do_cmode, which calls check_modes again; by then there is no key, so
-- that the calls go no deeper. The recursion runs on fuel, and two rounds are enough.
pub mod Turn
pub mod Obeys
pub mod Bans
pub mod Room
mod Examples
use oftc_blitzed.Base.{
  ℕ, zero, suc, ◌+◌, ◌-◌, Bool, true, false, not, ◌&&◌, ◌||◌, List, [], ◌∷◌, ◌++◌, Option, none,
  some, ◌==◌, if◌then◌else◌, leb, Bytes, length,
}
use oftc_blitzed.Text.{str_eq, strscpy}
use oftc_blitzed.Channel.Defs.{
  Flag, invite_only, moderated, moderated_reg, no_external, private_, secret, topic_lock, no_colour,
  oper_only, reg_only, Flags, Channel,
}
use oftc_blitzed.Channel.Modes.{Env, Cmode, set_flag, run}

-- The row of the channel in the database: get_mlock_on, get_mlock_off (with the bits CMODE_k and
-- CMODE_l apart), get_mlock_limit and get_mlock_key.
pub record Mlock : Type 0 where
  pub on : Flags
  pub off : Flags
  pub off_key : Bool
  pub off_limit : Bool
  pub limit : ℕ
  pub key : Option Bytes

-- A MODE command that is sent, with the parameters behind the letters.
pub record Command : Type 0 where
  pub letters : Bytes
  pub limit : Option ℕ
  pub key : Option Bytes

abbrev pub letter : Flag → ℕ
letter invite_only = b'i'
letter moderated = b'm'
letter moderated_reg = b'M'
letter no_external = b'n'
letter private_ = b'p'
letter secret = b's'
letter topic_lock = b't'
letter no_colour = b'c'
letter oper_only = b'O'
letter reg_only = b'R'

-- The order of the tests.
abbrev pub order : List Flag
order =
    invite_only ∷ moderated ∷ moderated_reg ∷ no_external ∷ private_ ∷ secret ∷ topic_lock
    ∷ no_colour ∷ oper_only ∷ reg_only ∷ []

-- The flags in `modes` are set to `add`; the letters go into the buffer.
pub turn : Bool → List Flag → Flags → Flags → Flags × Bytes
unfolding set_flag
turn add [] modes mode = (mode, [])
turn add (f ∷ l) modes mode =
    let rest = turn add l modes (if modes f then set_flag f add mode else mode) in
    (rest.0, if modes f then letter f ∷ rest.1 else rest.1)

-- `if (end[-1] == sign) end--`: a sign without letters behind it is taken back.
abbrev pub signed : ℕ → Bytes → Bytes
signed sign [] = []
signed sign (c ∷ s) = sign ∷ c ∷ s

-- The key of the lock, where there is one that is not empty.
abbrev pub lock_key : Option Bytes → Option Bytes
lock_key none = none
lock_key (some []) = none
lock_key (some (c ∷ s)) = some (c ∷ s)

-- `newmodes` is under way: the channel, the letters, and what stands behind them.
pub record Fix : Type 0 where
  pub chan : Channel
  pub letters : Bytes
  pub new_limit : Option ℕ
  pub newkey : Option Bytes
  pub sent : List Command

pub fix_limit : Mlock → Fix → Fix
fix_limit lock x =
    if not (lock.limit == 0) && not (lock.limit == x.chan.limit)
    then record x {
      chan = record x.chan { limit = lock.limit };
      letters = x.letters ++ b'l' ∷ [];
      new_limit = some lock.limit;
    }
    else x

abbrev pub put_key : Bytes → Fix → Fix
put_key k x = record x {
  chan = record x.chan { key = some k };
  letters = x.letters ++ b'k' ∷ [];
  newkey = some k;
}

-- `replace` takes the old key off by way of do_cmode.
pub fix_key : (Bytes → Fix → Fix) → Option Bytes → Option Bytes → Fix → Fix
fix_key replace none old x = x
fix_key replace (some k) none x = put_key k x
fix_key replace (some k) (some o) x = let y = put_key k (replace o x) in if str_eq o k then x else y

abbrev pub has_key : Option Bytes → Bool
has_key none = false
has_key (some k) = true

-- Behind the minus sign: the flags, then the key, then the limit.
pub fix_off : Mlock → Fix → Fix
unfolding turn
fix_off lock x =
    let (mode, s) = turn false order (λ f. x.chan.mode f && lock.off f) x.chan.mode in
    let key_off = has_key x.chan.key && lock.off_key in
    let limit_off = not (x.chan.limit == 0) && lock.off_limit in
    let s' = s ++ (if key_off then b'k' ∷ [] else []) ++ (if limit_off then b'l' ∷ [] else []) in
    record x {
      chan = record x.chan {
        mode = mode;
        key = if key_off then none else x.chan.key;
        limit = if limit_off then 0 else x.chan.limit;
      };
      letters = signed b'+' x.letters ++ signed b'-' s';
      newkey = if key_off then x.chan.key else x.newkey;
    }

abbrev pub or_empty : Option Bytes → Bytes
or_empty none = []
or_empty (some k) = k

abbrev pub key_sent : Option ℕ → Option Bytes → Option Bytes → Option Bytes
key_sent limit none key = none
key_sent none (some k) key = some k
key_sent (some l) (some k) key = some (or_empty key)

-- With a limit the key sent is the channel's, otherwise the new one; no letters, no command.
pub send_fix : Fix → Channel × List Command
send_fix x = elim x.letters [
  | [] ↦ (x.chan, x.sent)
  | c ∷ s ↦ (
    x.chan,
    x.sent
        ++ record {
          letters = c ∷ s;
          limit = x.new_limit;
          key = key_sent x.new_limit x.newkey x.chan.key;
        }
          ∷ [],
  )
]

-- The counts for the detection of bouncing modes, which is reported and changes nothing else.
abbrev pub count_change : ℕ → Channel → Channel
count_change now c = record c {
  chanserv_modecount = (if c.chanserv_modetime == now then c.chanserv_modecount else 0) + 1;
  chanserv_modetime = now;
}

pub begin : Mlock → Channel → Fix
unfolding turn
begin lock c =
    let (mode, s) = turn true order (λ f. not (c.mode f) && lock.on f) c.mode in
    record {
      chan = record c { mode = mode };
      letters = s;
      new_limit = none;
      newkey = none;
      sent = [];
    }

-- "MODE %s -k %s", and do_cmode(s_ChanServ, "-k key") with the check of the modes at its end.
pub take_key_off : Env → (Channel → Channel × List Command) → Bytes → Fix → Fix
take_key_off env check old x =
    let st =
      run env (b'-' ∷ b'k' ∷ []) (record { chan = x.chan; add = true; ac = 1; av = old ∷ [] }) in
    let (c, sent) = check st.chan in
    record x {
      chan = c;
      sent = x.sent ++ record { letters = b'-' ∷ b'k' ∷ []; limit = none; key = some old } ∷ sent;
    }

pub check_modes : ℕ → Env → Mlock → Channel → Channel × List Command
unfolding begin fix_limit fix_key fix_off send_fix take_key_off
check_modes zero env lock c = (c, [])
check_modes (suc fuel) env lock c =
    if c.bouncy_modes
    then (c, [])
    else let x = fix_limit lock (begin lock (count_change env.now c)) in
      send_fix (
        fix_off lock
          (fix_key (take_key_off env (check_modes fuel env lock)) (lock_key lock.key) x.chan.key x))

abbrev pub same_burst : Env → Bytes → Bytes → Channel → Bool
same_burst env lastmodes modestr c = env.now == c.server_modetime && str_eq modestr lastmodes

-- A change of one-bit modes by another server is counted: `modestr` has none of b, o and v.
pub count_server : Env → Bytes → Bytes → Channel → Channel
count_server env lastmodes modestr c =
    if same_burst env lastmodes modestr c
    then record c { server_modecount = c.server_modecount + 1 }
    else record c { server_modecount = 1; server_modetime = env.now }

pub has_list_mode : Bytes → Bool
has_list_mode [] = false
has_list_mode (c ∷ s) = c == b'b' || c == b'o' || c == b'v' || has_list_mode s

-- The whole handler, for a channel that exists: the channel, the commands sent, and `lastmodes`,
-- which has room for 39 bytes. `foreign` is set for a server other than this one.
pub do_cmode :
    Env → Mlock → Bool → Bytes → Bytes → List Bytes → Channel → Channel × List Command × Bytes
unfolding count_server has_list_mode
do_cmode env lock foreign lastmodes modestr params c =
    let counted = foreign && not (has_list_mode modestr) in
    let c' = if counted then count_server env lastmodes modestr c else c in
    let st = run env modestr (record { chan = c'; add = true; ac = length params; av = params }) in
    let (c'', sent) = check_modes 2 env lock st.chan in
    (
      c'',
      sent,
      if counted && not (same_burst env lastmodes modestr c)
          then strscpy lastmodes modestr 40
          else lastmodes,
    )
