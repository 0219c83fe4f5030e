-- ===== src/Channel/Members/Examples.antt =====
-- Runs of the member lists.
use oftc_blitzed.Base.{◌≡◌, refl, true, false, [], ◌∷◌, arith}
use oftc_blitzed.Access.{Facts, pos}
use oftc_blitzed.Channel.Samples.{lobby}
use oftc_blitzed.Channel.Members.{leave_lists}
use oftc_blitzed.Channel.Members.Removal.{IsConsistent}

lobby-IsConsistent : IsConsistent lobby
lobby-IsConsistent = record {
  users_distinct = (refl, (refl, (refl, tt)));
  ops_distinct = (refl, tt);
  voices_distinct = tt;
  ops_within = λ u h. ground arith;
  voices_within = λ u h. cc;
}

leaves : (leave_lists 8 lobby).users ≡ 9 ∷ 7 ∷ []
unfolding leave_lists
leaves = refl

-- On the access list with level 5, where that is enough to be opped.
abbrev amy : Facts
amy = record {
  channel_id = 3;
  secure = true;
  secureops = true;
  leaveops = false;
  verboten = false;
  get_chan_level = λ a. pos 5;
  nick_id = 12;
  is_founder = false;
  nick_identified = true;
  nick_recognized = true;
  chanaccess_level = pos 5;
  is_oper = false;
  cs_op_oper = true;
  restrict_delay_over = true;
}
