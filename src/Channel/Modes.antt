-- ===== src/Channel/Modes.antt =====
-- src/channels.c: do_cmode, the handler of a channel MODE command.
pub mod Effect
pub mod Args
pub mod Lists
mod Examples
use oftc_blitzed.Base.{
  ℕ, zero, suc, ◌+◌, ◌-◌, Bool, true, false, not, ◌&&◌, List, [], ◌∷◌, ◌++◌, Option, none, some,
  ◌==◌, if◌then◌else◌, Bytes, length,
}
use oftc_blitzed.Text.{stricmp, is_zero, str_eq, strscpy}
use oftc_blitzed.Channel.Defs.{
  Flag, invite_only, moderated, moderated_reg, no_external, private_, secret, topic_lock, no_colour,
  oper_only, reg_only, Flags, Ban, Channel,
}

-- What the handler takes from the rest of the program: the nick behind a pointer and finduser of
-- src/users.c, check_valid_op of src/chanserv.c, strtoul(), and the clock.
pub record Env : Type 0 where
  pub nick_of : ℕ → Bytes
  pub finduser : Bytes → Option ℕ
  pub check_valid_op : ℕ → Bool → Bool
  pub strtoul : Bytes → ℕ
  pub now : ℕ
  pub from_server : Bool

-- CMODE_i to CMODE_O of include/services.h.
abbrev pub bit : Flag → ℕ
bit invite_only = 0x1
bit moderated = 0x2
bit no_external = 0x4
bit private_ = 0x8
bit secret = 0x10
bit topic_lock = 0x20
bit reg_only = 0x100
bit no_colour = 0x400
bit oper_only = 0x800
bit moderated_reg = 0x1000

-- The letters of the `switch` that stand for one bit.
unfoldable pub flag_of : ℕ → Option Flag
flag_of c =
    if c == b'i'
    then some invite_only
    else if c == b'm'
    then some moderated
    else if c == b'M'
    then some moderated_reg
    else if c == b'n'
    then some no_external
    else if c == b'p'
    then some private_
    else if c == b's'
    then some secret
    else if c == b't'
    then some topic_lock
    else if c == b'c'
    then some no_colour
    else if c == b'O'
    then some oper_only
    else if c == b'R'
    then some reg_only
    else none

-- `mode |= bit` or `mode &= ~bit`.
unfoldable pub set_flag : Flag → Bool → Flags → Flags
set_flag f add mode g = if bit g == bit f then add else mode g

-- The variables of the loop: the parameters that are left, and how many of them count.
pub record Cmode : Type 0 where
  pub chan : Channel
  pub add : Bool
  pub ac : ℕ
  pub av : List Bytes

-- `*av`, and `av++`.
abbrev pub arg : List Bytes → Bytes
arg [] = []
arg (a ∷ av) = a

abbrev pub shift : List Bytes → List Bytes
shift [] = []
shift (a ∷ av) = av

-- `--ac < 0`: without a parameter the mode is ignored. (`ac` stays at 0 here; the source goes on
-- below it, where the test comes out the same.)
pub with_arg : (Cmode → Cmode) → Cmode → Cmode
with_arg f st = if st.ac == 0 then st else f (record st { ac = st.ac - 1 })

-- Only +k moves on to the next parameter.
pub mode_k : Cmode → Cmode
mode_k st =
    if st.add
    then record st { chan = record st.chan { key = some (arg st.av) }; av = shift st.av }
    else record st { chan = record st.chan { key = none } }

pub mode_l : Env → Cmode → Cmode
unfolding with_arg
mode_l env st =
    if st.add
    then with_arg
        (λ t. record t { chan = record t.chan { limit = env.strtoul (arg t.av) }; av = shift t.av })
        st
    else record st { chan = record st.chan { limit = 0 } }

-- The first ban with this mask is taken out.
unfoldable pub remove_ban : Bytes → List Ban → List Ban
remove_ban m [] = []
remove_ban m (b ∷ bans) = if str_eq b.mask m then bans else b ∷ remove_ban m bans

pub mode_b : Env → Cmode → Cmode
unfolding remove_ban
mode_b env st =
    let m = arg st.av in
    let bans =
      if st.add
      then st.chan.bans ++ record { mask = m; time = env.now } ∷ []
      else remove_ban m st.chan.bans in
    record st { chan = record st.chan { bans = bans }; av = shift st.av }

-- stricmp(u->user->nick, nick) == 0
abbrev pub has_nick : Env → Bytes → ℕ → Bool
has_nick env nick u = is_zero (stricmp (env.nick_of u) nick)

unfoldable pub listed : Env → Bytes → List ℕ → Bool
listed env nick [] = false
listed env nick (u ∷ l) = if has_nick env nick u then true else listed env nick l

unfoldable pub unlist : Env → Bytes → List ℕ → List ℕ
unlist env nick [] = []
unlist env nick (u ∷ l) = if has_nick env nick u then l else u ∷ unlist env nick l

-- A new entry for the user of this nick, if there is one and `allowed` has nothing against it.
unfoldable pub enlist : Env → (ℕ → Bool) → Bytes → List ℕ → List ℕ
unfolding listed
enlist env allowed nick l =
    if listed env nick l
    then l
    else elim (env.finduser nick) [ none ↦ l | some u ↦ if allowed u then u ∷ l else l ]

pub mode_o : Env → Cmode → Cmode
mode_o env st =
    let nick = arg st.av in
    let ops =
      if st.add
      then enlist env (λ u. env.check_valid_op u env.from_server) nick st.chan.chanops
      else unlist env nick st.chan.chanops in
    record st { chan = record st.chan { chanops = ops }; av = shift st.av }

pub mode_v : Env → Cmode → Cmode
mode_v env st =
    let nick = arg st.av in
    let voices =
      if st.add
      then enlist env (λ u. true) nick st.chan.voices
      else unlist env nick st.chan.voices in
    record st { chan = record st.chan { voices = voices }; av = shift st.av }

-- The letters with parameters, and the signs; any other letter is ignored.
unfoldable pub other_mode : Env → ℕ → Cmode → Cmode
unfolding with_arg mode_k mode_l mode_b mode_o mode_v
other_mode env c st =
    if c == b'+'
    then record st { add = true }
    else if c == b'-'
    then record st { add = false }
    else if c == b'k'
    then with_arg mode_k st
    else if c == b'l'
    then mode_l env st
    else if c == b'b'
    then with_arg (mode_b env) st
    else if c == b'o'
    then with_arg (mode_o env) st
    else if c == b'v'
    then with_arg (mode_v env) st
    else st

unfoldable pub flag_mode : Flag → Cmode → Cmode
unfolding set_flag
flag_mode f st = record st { chan = record st.chan { mode = set_flag f st.add st.chan.mode } }

-- One turn of `while (*s)`.
unfoldable pub step : Env → ℕ → Cmode → Cmode
step env c st = elim (flag_of c) [ none ↦ other_mode env c st | some f ↦ flag_mode f st ]

unfoldable pub run : Env → Bytes → Cmode → Cmode
run env [] st = st
run env (c ∷ s) st = run env s (step env c st)
