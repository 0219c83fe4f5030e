-- ===== src/Channel/Events/Examples.antt =====
-- A channel with bans and a limit, in the loop.
use oftc_blitzed.Base.{◌≡◌, refl, [], ◌∷◌, codes, true, false, none}
use oftc_blitzed.Channel.Defs.{Channel}
use oftc_blitzed.Channel.Lock.{Mlock}
use oftc_blitzed.Channel.Samples.{lobby}
use oftc_blitzed.Channel.Events.{check_autolimit}

abbrev banned : Channel
banned = record lobby {
  bans =
      record { mask = codes "a!*@*"; time = 10 } ∷ record { mask = codes "b!*@*"; time = 60 } ∷ [];
  bantime = 1;
  limit = 4;
}

abbrev open_lock : Mlock
open_lock = record {
  on = λ f. false;
  off = λ f. false;
  off_key = false;
  off_limit = false;
  limit = 0;
  key = none;
}

-- Three users and an offset of two.
limit_five : (check_autolimit 100 true (record lobby { limit = 3 })).0.limit ≡ 5
unfolding check_autolimit
limit_five = refl
