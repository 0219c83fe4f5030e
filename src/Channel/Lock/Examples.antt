-- ===== src/Channel/Lock/Examples.antt =====
-- Channels under a mode lock.
use oftc_blitzed.Base.{All, ◌≡◌, refl, false, [], ◌∷◌, ◌==◌, ◌||◌, codes, none, some}
use oftc_blitzed.Channel.Defs.{Channel, invite_only, secret, no_external}
use oftc_blitzed.Channel.Modes.{bit, run, step, flag_of, flag_mode, other_mode, set_flag}
use oftc_blitzed.Channel.Lock.{
  Mlock, check_modes, begin, fix_limit, fix_key, fix_off, send_fix, take_key_off, turn,
}
use oftc_blitzed.Channel.Lock.Room.{HasRoom, check_modes-HasRoom}
use oftc_blitzed.Channel.Lock.Obeys.{IsLocked, check_modes-IsLocked}
use oftc_blitzed.Channel.Samples.{lobby, env}

-- +nl 25 and +k pw, and -i.
abbrev lock : Mlock
lock = record {
  on = λ f. bit f == bit no_external;
  off = λ f. bit f == bit invite_only;
  off_key = false;
  off_limit = false;
  limit = 25;
  key = some (codes "pw");
}

abbrev keyed : Channel
keyed = record lobby {
  key = some (codes "old");
  mode = λ f. bit f == bit invite_only || bit f == bit secret;
}

-- The new key is sent twice: by the round inside, and by the one outside.
four_commands :
    (check_modes 2 env lock keyed).1
    ≡ record { letters = codes "-k"; limit = none; key = some (codes "old") }
      ∷ record { letters = codes "+k-i"; limit = none; key = some (codes "pw") }
      ∷ record { letters = codes "+nlk"; limit = some 25; key = some (codes "pw") }
      ∷ []
unfolding check_modes begin fix_limit fix_key fix_off send_fix take_key_off turn run step flag_of
    flag_mode other_mode set_flag
four_commands = refl

check_modes-IsLocked_example : IsLocked lock keyed (check_modes 2 env lock keyed).0
check_modes-IsLocked_example = check_modes-IsLocked 0 env lock keyed refl

check_modes-HasRoom_example : All HasRoom (check_modes 2 env lock keyed).1
check_modes-HasRoom_example = check_modes-HasRoom 2 env lock keyed
