-- ===== src/Flood.antt =====
-- src/floodserv.c: texts that are repeated on a channel. The lists of tools.c are lists; a text or a
-- host is compared by stricmp. kill_user of src/actions.c takes the user off at once.
pub mod Texts
pub mod Run
pub mod Limit
mod Examples
use oftc_blitzed.Base.{
  ℕ, ◌+◌, Bool, true, false, not, ◌&&◌, ◌||◌, List, [], ◌∷◌, ◌++◌, Option, none, some, ◌==◌,
  if◌then◌else◌, ltb, leb, Bytes, codes, keep_if,
}
use oftc_blitzed.Text.{stricmp, irc_stricmp, is_zero, strscpy}
use oftc_blitzed.Akill.{Akills, Sent, Result, akill_present, added, too_many_akills, add_akill}

-- Flooders and TxtFloods of include/floodserv.h
pub record Flooder : Type 0 where
  pub nick : Bytes
  pub host : Bytes
  pub akilled : Bool

pub record TxtFlood : Type 0 where
  pub flooder : List Flooder
  pub txtbuffer : Bytes
  pub time : ℕ
  pub repeat : ℕ
  pub warned : Bool
  pub chanid : ℕ

-- FloodServTFNumLines, -TFSec, -TFNLWarned, -TFSecWarned, -WarnFirst, -AkillExpiry, -AkillReason,
-- s_FloodServ and ImmediatelySendAkill.
pub record Config : Type 0 where
  pub num_lines : ℕ
  pub sec : ℕ
  pub nl_warned : ℕ
  pub sec_warned : ℕ
  pub warn_first : Bool
  pub akill_expiry : ℕ
  pub akill_reason : Bytes
  pub s_floodserv : Bytes
  pub immediately_send_akill : Bool

-- What FloodServ looks at in a user and in a channel.
pub record Client : Type 0 where
  pub nick : Bytes
  pub host : Bytes
  pub oper : Bool

pub record Chan : Type 0 where
  pub channel_id : ℕ
  pub floodserv : Bool

-- `killed` are the nicks in KILLs, the last one first.
pub record World : Type 0 where
  pub flood : List TxtFlood
  pub online : List Client
  pub akills : Akills
  pub killed : List Bytes
  pub sent : List Sent

-- A char is signed: bytes from 128 on are negative, and go as well.
unfoldable pub strstrip : Bytes → Bytes
strstrip [] = []
strstrip (c ∷ s) = if ltb b' ' c && ltb c 128 then c ∷ strstrip s else strstrip s

unfoldable pub finduser : Bytes → List Client → Option Client
finduser nick [] = none
finduser nick (u ∷ l) = if is_zero (irc_stricmp u.nick nick) then some u else finduser nick l

pub unlink_user : Bytes → List Client → List Client
unlink_user nick [] = []
unlink_user nick (u ∷ l) = if is_zero (irc_stricmp u.nick nick) then l else u ∷ unlink_user nick l

unfoldable pub kill_user : Bytes → World → World
unfolding unlink_user
kill_user [] w = w
kill_user (c ∷ nick) w = record w {
  online = unlink_user (c ∷ nick) w.online;
  killed = (c ∷ nick) ∷ w.killed;
}

-- The users with a host, from the first to the last.
unfoldable pub kill_host : Bytes → List Client → World → World
unfolding kill_user
kill_host host [] w = w
kill_host host (u ∷ l) w =
    kill_host host l (if is_zero (stricmp u.host host) then kill_user u.nick w else w)

abbrev pub is_added : Result → Bool
is_added akill_present = false
is_added added = true
is_added too_many_akills = true

abbrev pub mask_of : Bytes → Bytes
mask_of host = strscpy [] (codes "*@" ++ host) 1024

-- One turn of the loop of fs_add_akill.
pub akill_host : Config → ℕ → Bytes → World → World
unfolding kill_host
akill_host cfg expires host w =
    let (t, result, sent) =
      add_akill cfg.immediately_send_akill (mask_of host) cfg.akill_reason cfg.s_floodserv expires
        w.akills in
    let w' = record w { akills = t; sent = sent ++ w.sent } in
    if is_added result && not cfg.immediately_send_akill then kill_host host w.online w' else w'

unfoldable pub fs_add_akill : Config → ℕ → List Flooder → World → World
unfolding akill_host
fs_add_akill cfg expires [] w = w
fs_add_akill cfg expires (f ∷ l) w =
    fs_add_akill cfg expires l (if f.akilled then w else akill_host cfg expires f.host w)

abbrev pub mark : List Flooder → List Flooder
mark [] = []
mark (f ∷ l) = record f { akilled = true } ∷ mark l

pub has_host : Bytes → List Flooder → Bool
has_host host [] = false
has_host host (f ∷ l) = if is_zero (stricmp host f.host) then true else has_host host l

-- A new flooder goes to the front; a host is linked once.
unfoldable pub add_floodtxt_user : Client → TxtFlood → TxtFlood
unfolding has_host
add_floodtxt_user u x = if has_host u.host x.flooder then x else record x {
  flooder = record { nick = strscpy [] u.nick 32; host = u.host; akilled = false } ∷ x.flooder;
}

unfoldable pub add_floodtxt : ℕ → Client → Bytes → ℕ → List TxtFlood → List TxtFlood
unfolding add_floodtxt_user
add_floodtxt now u buf id l =
    add_floodtxt_user u (record {
      flooder = [];
      txtbuffer = buf;
      time = now;
      repeat = 1;
      warned = false;
      chanid = id;
    })
    ∷ l

abbrev pub is_old : Config → ℕ → TxtFlood → Bool
is_old cfg now x =
    not x.warned && ltb (x.time + cfg.sec) now || x.warned && ltb (x.time + cfg.sec_warned) now

abbrev pub expire_floodtxt : Config → ℕ → List TxtFlood → List TxtFlood
expire_floodtxt cfg now l = keep_if (λ x. not (is_old cfg now x)) l

abbrev pub is_text : ℕ → Bytes → TxtFlood → Bool
is_text id text x = x.chanid == id && is_zero (stricmp text x.txtbuffer)

unfoldable pub find_text : ℕ → Bytes → List TxtFlood → Option TxtFlood
find_text id text [] = none
find_text id text (x ∷ l) = if is_text id text x then some x else find_text id text l

unfoldable pub set_text : ℕ → Bytes → TxtFlood → List TxtFlood → List TxtFlood
set_text id text y [] = []
set_text id text y (x ∷ l) = if is_text id text x then y ∷ l else x ∷ set_text id text y l

-- What becomes of a text that is said once more, and of the network.
unfoldable pub judge : Config → ℕ → Bytes → TxtFlood → World → TxtFlood × World
unfolding kill_user fs_add_akill
judge cfg now source x w =
    if leb cfg.num_lines x.repeat
    then if leb now (x.time + cfg.sec)
      then if cfg.warn_first && not x.warned
        then (record x { warned = true }, kill_user source w)
        else (
          record x { flooder = mark x.flooder },
          fs_add_akill cfg (cfg.akill_expiry + now) x.flooder w,
        )
      else if leb now (x.time + cfg.sec_warned) && (x.warned && leb cfg.nl_warned x.repeat)
      then (
        record x { flooder = mark x.flooder },
        fs_add_akill cfg (cfg.akill_expiry + now) x.flooder w,
      )
      else (x, w)
    else (x, w)

abbrev pub put_text : ℕ → Bytes → TxtFlood × World → World
put_text id text (y, w) = record w { flood = set_text id text y w.flood }

abbrev pub again : Client → TxtFlood → TxtFlood
again u x = let y = add_floodtxt_user u x in record y { repeat = y.repeat + 1 }

abbrev pub said : Config → ℕ → Bytes → Client → ℕ → Bytes → World → Option TxtFlood → World
said cfg now source u id text w none = record w { flood = add_floodtxt now u text id w.flood }
said cfg now source u id text w (some x) = put_text id text (judge cfg now source (again u x) w)

abbrev pub by_user : Config → ℕ → Bytes → Chan → Bytes → World → Option Client → World
by_user cfg now source chan text w none = w
by_user cfg now source chan text w (some u) =
    if u.oper
    then w
    else (let w' = record w { flood = expire_floodtxt cfg now w.flood } in
        if chan.floodserv
        then said cfg now source u chan.channel_id (strstrip text) w'
            (find_text chan.channel_id (strstrip text) w'.flood)
        else w')

-- A text on a channel; one that is not known is ignored.
unfoldable pub privmsg_flood : Config → ℕ → Bytes → Option Chan → Bytes → World → World
unfolding finduser find_text judge set_text add_floodtxt strstrip
privmsg_flood cfg now source none text w = w
privmsg_flood cfg now source (some chan) text w =
    by_user cfg now source chan text w (finduser source w.online)
