-- ===== src/NickServ/Enforce/Examples.antt =====
-- A nick that is enforced, and two users who want it.
use oftc_blitzed.Base.{
  ◌+◌, ◌≤◌, ◌≡◌, refl, true, false, List, [], ◌∷◌, Option, none, some, arith, codes, ◌==◌,
  if◌then◌else◌,
}
use oftc_blitzed.Text.{stricmp, irc_stricmp, str_eq, tolower}
use oftc_blitzed.Cache.{Bits}
use oftc_blitzed.NickServ.Enforce.{
  ns_identified, ns_guested, with_bit, without_temporary, Row, User, to_collide, to_release, Timer,
  Message, kill, password_incorrect, enforcer, svsnick, forcenickchange_now, quit, Net, Env,
  row_status, has_bit, change_status, add_ns_timeout, rem_ns_timeout, del_ns_timeout, finduser,
  validate_free, validate_user, is_guested, cancel_user, nick_identified, collide_nick,
  timeout_collide, timeout_release,
}
use oftc_blitzed.NickServ.Enforce.Commands.{
  mysql_update_last_seen, identify, do_identify, do_recover, do_release, delete_user, do_kill,
  kill_user, fail,
}
use oftc_blitzed.NickServ.Enforce.Status.{IsClear}
use oftc_blitzed.NickServ.Enforce.Safe.{validate_user-IsClear}
use oftc_blitzed.NickServ.Enforce.Identify.{IsThere, do_identify_iff}
use oftc_blitzed.Actions.{Attempts, Config, bad_password}
use oftc_blitzed.NickServ.Enforce.Late.{IsEnforced, validate_user-svsnick}
use oftc_blitzed.NickServ.Enforce.Stale.{cancel_user-stale}

abbrev none_set : Bits
none_set = λ i. false

abbrev row : Bits → Row
row s = record {
  nick = codes "amy";
  status = s;
  id_stamp = 77;
  last_usermask = codes "a@a.org";
  last_seen = 0;
  email = codes "a@a.org";
  cloak_string = [];
  suspended = false;
  secure = false;
  enforce = true;
  enforcequick = false;
  ircop = false;
  cloak = false;
}

abbrev env : Env
env = record {
  no_split_recovery = false;
  release_timeout = 60;
  is_on_access = λ n h i. false;
  check_nick_password = λ s id. str_eq s (codes "pw");
}

abbrev thief : User
thief = record {
  nick = codes "amy";
  username = codes "t";
  host = codes "t.org";
  real_id = 1;
  nick_id = 1;
  services_stamp = 0;
  my_signon = 100;
  oper = false;
}

abbrev net_of : Bits → Option Bits → User → Net
net_of s c u = record {
  table = λ i. if i == 1 then some (row s) else none;
  cached = λ i. if i == 1 then c else none;
  online = u ∷ [];
  mine = [];
  timeouts = [];
  next_to = 5;
  counter = 3;
  sent = [];
}

program : Unit {0}
unfolding stricmp irc_stricmp tolower change_status add_ns_timeout rem_ns_timeout del_ns_timeout
    finduser validate_free validate_user cancel_user mysql_update_last_seen identify do_identify
    bad_password delete_user do_kill kill_user fail collide_nick timeout_collide timeout_release
    do_recover do_release
program = tt

-- An earlier user was identified, by the table and by the cache.
abbrev identified : Bits
identified = with_bit ns_identified none_set

validate_user-IsClear_example :
    IsClear ns_identified 1
      (validate_user env 100 thief (net_of identified (some identified) thief)).1
validate_user-IsClear_example =
    validate_user-IsClear env 100 thief (net_of identified (some identified) thief) (omega arith)
      refl refl

-- Two attempts: the second one kills.
abbrev limits : Config
limits = record { limit = 2; timeout = 0 }

abbrev once : Attempts
once = record { count = 1; time = 120 }

abbrev there_before : Net
there_before = net_of identified (some identified) thief

there : IsThere thief (row identified) there_before
unfolding program
there = record {
  real = omega arith;
  has_row = refl;
  unguested = refl;
  named = omega arith;
  online = refl;
}

do_identify_iff_example :
    ((do_identify env limits 130 thief (some (codes "wrong")) once there_before).0
      ≡ record { count = 2; time = 130 })
    × (nick_identified thief
          (do_identify env limits 130 thief (some (codes "wrong")) once there_before).1
        ≡ false)
unfolding program
do_identify_iff_example =
    do_identify_iff env limits 130 thief (codes "wrong") (row identified) once there_before there

killed :
    (do_identify env limits 130 thief (some (codes "wrong")) once there_before).1.sent
    ≡ kill (codes "amy") ∷ password_incorrect ∷ []
unfolding program
killed = refl

right_away :
    nick_identified thief
      (do_identify env limits 130 thief (some (codes "pw")) once (net_of none_set none thief)).1
    ≡ true
unfolding program
right_away = refl

abbrev start : Net
start = net_of none_set none thief

enforced : IsEnforced thief env start
enforced = record {
  real = omega arith;
  free = refl;
  stranger = refl;
  no_stamp = refl;
  master = row none_set;
  has_master = refl;
  enforced = refl;
}

abbrev warning : Timer
warning = record { to = 5; nick_id = 1; kind = to_collide; timeout = 160; settime = 100 }

warned : Net
unfolding program
warned = (validate_user env 100 thief start).1

validate_user-svsnick_example :
    (160 ≤ 100 + 60)
    × ((st' : Net) × (timeout_collide warning warned ≡ some st')
        × (st'.sent
            ≡ svsnick (codes "amy") warned.counter
              ∷ forcenickchange_now warned.counter
              ∷ warned.sent)
        × (is_guested 1 st' ≡ true))
unfolding program warned
validate_user-svsnick_example =
    validate_user-svsnick env 100 thief start enforced warning [] refl
      (row (without_temporary none_set)) thief warned refl refl refl (omega arith)

-- The nick is then held, and given back when the timer for that goes off.
abbrev sent_by : Option Net → List Message
sent_by none = []
sent_by (some st) = st.sent

abbrev releases : Option Net → List Message
releases none = []
releases (some st) =
    let gone = cancel_user env 161 thief st in
    sent_by (
      timeout_release
        (record { to = 6; nick_id = 1; kind = to_release; timeout = 221; settime = 161 }) gone)

held :
    releases (timeout_collide warning (record warned { sent = [] }))
    ≡ quit (codes "amy")
      ∷ enforcer (codes "amy")
      ∷ svsnick (codes "amy") 3
      ∷ forcenickchange_now 3
      ∷ []
unfolding program warned
held = refl

abbrev guested : Bits
guested = with_bit ns_guested identified

cancel_user-stale_example :
    (has_bit ns_identified
        (row_status ((cancel_user env 100 thief (net_of guested (some guested) thief)).table 1))
      ≡ false)
    × (nick_identified thief (cancel_user env 100 thief (net_of guested (some guested) thief))
        ≡ true)
cancel_user-stale_example =
    cancel_user-stale env 100 thief (row guested) guested (net_of guested (some guested) thief)
      (omega arith) refl refl refl refl
