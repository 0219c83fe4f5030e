-- ===== src/Access/Examples.antt =====
-- A user on the access list with level 5, of a channel that ops from 5 and deops from -1.
use oftc_blitzed.Base.{◌≡◌, refl, true, false, codes}
use oftc_blitzed.Access.{
  ℤ, pos, negsuc, leqℤ, Facts, Ability, autoop, autovoice, autodeop, nojoin, other, get_access,
  check_access, check_valid_op, should_have, check_should_voice,
}

abbrev levels : Ability → ℤ
levels autoop = pos 5
levels autovoice = pos 3
levels autodeop = negsuc 0
levels nojoin = negsuc 1
levels other = pos 5

abbrev amy : Facts
amy = record {
  channel_id = 3;
  secure = true;
  secureops = true;
  leaveops = false;
  verboten = false;
  get_chan_level = levels;
  nick_id = 12;
  is_founder = false;
  nick_identified = true;
  nick_recognized = true;
  chanaccess_level = pos 5;
  is_oper = false;
  cs_op_oper = true;
  restrict_delay_over = true;
}

abbrev stranger : Facts
stranger = record amy { nick_identified = false }

deopped : check_valid_op stranger true ≡ false
unfolding check_valid_op check_access get_access leqℤ
deopped = refl

voiced : check_should_voice amy (codes "#den") ≡ true
unfolding check_should_voice should_have check_access get_access leqℤ
voiced = refl
