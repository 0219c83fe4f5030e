-- ===== src/Channel/Samples.antt =====
-- A channel and its surroundings, for the tests.
use oftc_blitzed.Base.{
  ℕ, true, false, [], ◌∷◌, Option, none, some, Bytes, codes, ◌==◌, if◌then◌else◌,
}
use oftc_blitzed.Text.{str_eq}
use oftc_blitzed.Channel.Defs.{Channel}
use oftc_blitzed.Channel.Modes.{Env}

-- User 7 is on the channel as an operator, users 8 and 9 without.
abbrev pub lobby : Channel
lobby = record {
  name = codes "#lobby";
  mode = λ f. false;
  limit = 0;
  key = none;
  bans = [];
  users = 9 ∷ 8 ∷ 7 ∷ [];
  chanops = 7 ∷ [];
  voices = [];
  server_modetime = 0;
  server_modecount = 0;
  chanserv_modetime = 0;
  chanserv_modecount = 0;
  bouncy_modes = false;
  channel_id = 3;
  limit_offset = 2;
  limit_tolerance = 1;
  limit_period = 1;
  last_limit_time = 0;
  bantime = 0;
}

abbrev pub nick_of : ℕ → Bytes
nick_of u = if u == 7 then codes "amy" else if u == 8 then codes "bob" else codes "cleo"

abbrev pub finduser : Bytes → Option ℕ
finduser n =
    if str_eq n (codes "amy")
    then some 7
    else if str_eq n (codes "bob")
    then some 8
    else if str_eq n (codes "cleo")
    then some 9
    else none

abbrev pub env : Env
env = record {
  nick_of = nick_of;
  finduser = finduser;
  check_valid_op = λ u s. true;
  strtoul = λ s. 25;
  now = 100;
  from_server = false;
}
