-- ===== src/Channel/Events/Limit.antt =====
-- The limit that check_autolimit leaves on a channel.
use oftc_blitzed.Base.{ℕ, ◌+◌, ◌≤◌, ◌<◌, ◌≡◌, ◌≢◌, Bool, true, false, [], arith, length}
use oftc_blitzed.Channel.Defs.{Channel}
use oftc_blitzed.Channel.Events.{check_autolimit}

-- A limit is within the tolerance if the number of users and the offset lie between it and the
-- tolerance above it.
pub record IsWithin (c : Channel) : Type 0 where
  pub low : c.limit ≤ length c.users + c.limit_offset
  pub high : length c.users + c.limit_offset ≤ c.limit + c.limit_tolerance

-- On a registered channel with an offset, whose limit was set more than ten seconds ago,
-- check_autolimit with leave to raise ends with a limit that is at most the number of users plus
-- the offset, and below that by no more than the tolerance; all numbers are below 2 ^ 31.
pub check_autolimit-IsWithin :
    (now : ℕ) (c : Channel)
    → c.channel_id ≢ 0
    → c.limit_offset ≢ 0
    → c.last_limit_time + 10 < now
    → c.limit < 2147483648
    → length c.users + c.limit_offset < 2147483648
    → IsWithin (check_autolimit now true c).0
unfolding check_autolimit
check_autolimit-IsWithin now c i o t l u = record { low = ground arith; high = ground arith }

-- Without leave to raise, as after a PART, QUIT or KICK, check_autolimit never raises a limit
-- (numbers below 2 ^ 31).
pub check_autolimit-low :
    (now : ℕ) (c : Channel)
    → c.limit < 2147483648
    → length c.users + c.limit_offset < 2147483648
    → (check_autolimit now false c).0.limit ≤ c.limit
unfolding check_autolimit
check_autolimit-low now c l u = ground arith

-- A limit that is in the tolerance stays, and no command is sent.
pub check_autolimit-quiet :
    (now : ℕ) (allow_raise : Bool) (c : Channel)
    → IsWithin c
    → c.limit < 2147483648
    → c.limit_tolerance < 2147483648
    → (check_autolimit now allow_raise c).1 ≡ []
unfolding check_autolimit
check_autolimit-quiet now allow_raise c w l t = ground (arith, w.low, w.high)
