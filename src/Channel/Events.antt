-- ===== src/Channel/Events.antt =====
-- src/channels.c: check_autolimit and chan_update_events, which adjust the limits of the registered
-- channels and take out old bans. An `unsigned int` is a number below 2 ^ 32, with its wrap-around
-- written out; time_t is wide enough for every time.
pub mod Limit
pub mod Expiry
mod Examples
use oftc_blitzed.Base.{
  ℕ, ◌+◌, ◌-◌, ◌*◌, ◌%◌, Bool, true, false, not, ◌&&◌, ◌||◌, List, [], ◌∷◌, ◌++◌, Option, none,
  some, ◌==◌, if◌then◌else◌, ltb, leb, Bytes, length,
}
use oftc_blitzed.Channel.Defs.{Ban, Channel}
use oftc_blitzed.Channel.Modes.{Env}
use oftc_blitzed.Channel.Lock.{Mlock, Command, do_cmode}

abbrev pub word : ℕ
word = 4294967296

-- `delta`, as the bits of the int.
abbrev pub delta : Channel → ℕ
delta c = (length c.users + c.limit_offset + (word - c.limit)) % word

abbrev pub limit_wanted : Bool → Channel → Bool
limit_wanted allow_raise c =
    leb 2147483648 (delta c) || ltb c.limit_tolerance (delta c) && allow_raise

-- "MODE %s +l %d"
abbrev pub limit_command : ℕ → Command
limit_command limit = record { letters = b'+' ∷ b'l' ∷ []; limit = some limit; key = none }

pub check_autolimit : ℕ → Bool → Channel → Channel × List Command
check_autolimit now allow_raise c =
    if c.channel_id == 0 || c.limit_offset == 0 || leb now (c.last_limit_time + 10)
    then (c, [])
    else let limit = (length c.users + c.limit_offset) % word in
      if limit_wanted allow_raise c
      then (record c { limit = limit; last_limit_time = now }, limit_command limit ∷ [])
      else (record c { last_limit_time = now }, [])

-- newbans[i]->time < now - bantime * 60
abbrev pub is_old : ℕ → ℕ → Ban → Bool
is_old now bantime b = ltb (b.time + (bantime * 60) % word) now

pub to_remove : ℕ → ℕ → List Ban → List Bytes
to_remove now bantime [] = []
to_remove now bantime (b ∷ bans) =
    let l = to_remove now bantime bans in if is_old now bantime b then b.mask ∷ l else l

-- "MODE %s -b %s", and do_cmode(s_ChanServ, "-b mask").
pub remove_bans : Env → Mlock → List Bytes → Channel × List Command → Channel × List Command
remove_bans env lock [] (c, sent) = (c, sent)
remove_bans env lock (m ∷ l) (c, sent) =
    let (d, more, last) = do_cmode env lock false [] (b'-' ∷ b'b' ∷ []) (m ∷ []) c in
    remove_bans env lock l
      (d, sent ++ record { letters = b'-' ∷ b'b' ∷ []; limit = none; key = some m } ∷ more)

pub limit_due : ℕ → Channel → Bool
limit_due now c =
    not (c.limit_offset == 0)
    && leb ((c.limit_period * 60) % word) ((now + word - c.last_limit_time % word) % word)

pub adjust_limit : ℕ → Channel → Channel × List Command
unfolding limit_due check_autolimit
adjust_limit now c = if limit_due now c then check_autolimit now true c else (c, [])

pub clear_bans : Env → Mlock → Channel × List Command → Channel × List Command
unfolding to_remove remove_bans
clear_bans env lock (d, sent) =
    if d.bantime == 0
    then (d, sent)
    else remove_bans env lock (to_remove env.now d.bantime d.bans) (d, sent)

-- The body of the loop for one channel.
pub update_channel : Env → Mlock → Channel → Channel × List Command
unfolding adjust_limit clear_bans
update_channel env lock c =
    if c.channel_id == 0 then (c, []) else clear_bans env lock (adjust_limit env.now c)

-- The loop over firstchan() and nextchan(), with the mode lock of each channel.
pub chan_update_events : Env → (Channel → Mlock) → List Channel → List Channel × List Command
unfolding update_channel
chan_update_events env lock_of [] = ([], [])
chan_update_events env lock_of (c ∷ l) =
    let (d, sent) = update_channel env (lock_of c) c in
    let (l', rest) = chan_update_events env lock_of l in (d ∷ l', sent ++ rest)
