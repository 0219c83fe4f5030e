-- ===== src/Channel/Members.antt =====
-- src/channels.c: chan_adduser and chan_deluser on the channel's lists.
pub mod Removal
mod Examples
use oftc_blitzed.Base.{
  mem, ℕ, Bool, true, false, List, [], ◌∷◌, Option, none, some, ◌==◌, if◌then◌else◌,
}
use oftc_blitzed.Access.{Facts, check_should_op, check_should_voice}
use oftc_blitzed.Channel.Defs.{Channel}
use oftc_blitzed.Channel.Lock.{Command}
use oftc_blitzed.Channel.Events.{check_autolimit}

-- The first entry for the user is taken out of the list.
pub remove : ℕ → List ℕ → List ℕ
remove u [] = []
remove u (v ∷ l) = if v == u then l else v ∷ remove u l

pub add_lists : Bool → Bool → ℕ → Channel → Channel
add_lists should_op should_voice u c =
    let c' =
      if should_op
      then record c { chanops = u ∷ c.chanops }
      else if should_voice
      then record c { voices = u ∷ c.voices }
      else c in
    record c' { users = u ∷ c'.users }

-- The part of chan_adduser behind the creation of the channel, with what is known of the user there.
unfoldable pub chan_adduser : Facts → ℕ → Channel → Channel
unfolding add_lists
chan_adduser f u c = add_lists (check_should_op f c.name) (check_should_voice f c.name) u c

-- The user leaves all three lists.
unfoldable pub leave_lists : ℕ → Channel → Channel
unfolding remove
leave_lists u c = record c {
  users = remove u c.users;
  chanops = remove u c.chanops;
  voices = remove u c.voices;
}

-- `if (!c->users)`: `none` means that the channel is freed.
pub after_leaving {ℓ} : {A : Type ℓ} → List ℕ → A → Option A
after_leaving [] a = none
after_leaving (v ∷ l) a = some a

-- If somebody is left on the channel the limit is checked, and may be lowered.
unfoldable pub chan_deluser : ℕ → ℕ → Channel → Option (Channel × List Command)
unfolding after_leaving leave_lists
chan_deluser now u c =
    let c' = leave_lists u c in after_leaving c'.users (check_autolimit now false c')
