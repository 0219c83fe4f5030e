-- ===== src/Flood/Examples.antt =====
-- Three users who say one text.
use oftc_blitzed.Base.{
  ℕ, ◌+◌, ◌≤◌, ◌≡◌, refl, Bool, true, false, [], ◌∷◌, some, arith, Bytes, codes, All,
}
use oftc_blitzed.Text.{strlower, strscpy, stricmp, irc_stricmp, tolower}
use oftc_blitzed.Akill.{is_present}
use oftc_blitzed.Flood.{
  TxtFlood, Config, Client, Chan, World, strstrip, finduser, find_text, mask_of,
}
use oftc_blitzed.Flood.Run.{Line, say, say_all, IsLine}
use oftc_blitzed.Flood.Limit.{say_all-below, say_all-akills}

abbrev cfg : Bool → ℕ → Config
cfg warn lines = record {
  num_lines = lines;
  sec = 5;
  nl_warned = 2;
  sec_warned = 60;
  warn_first = warn;
  akill_expiry = 600;
  akill_reason = codes "flood";
  s_floodserv = codes "FloodServ";
  immediately_send_akill = false;
}

abbrev amy : Client
amy = record { nick = codes "amy"; host = codes "a.org"; oper = false }

abbrev bob : Client
bob = record { nick = codes "bob"; host = codes "b.org"; oper = false }

abbrev carl : Client
carl = record { nick = codes "carl"; host = codes "A.org"; oper = false }

abbrev chan : Chan
chan = record { channel_id = 4; floodserv = true }

abbrev start : World
start = record {
  flood = [];
  online = amy ∷ bob ∷ carl ∷ [];
  akills = record { rows = []; next_id = 1 };
  killed = [];
  sent = [];
}

abbrev text : Bytes
text = codes "hi!"

abbrev by_amy : Line
by_amy = record { now = 100; source = codes "amy"; text = codes "hi !"; client = amy }

abbrev by_bob : Line
by_bob = record { now = 101; source = codes "Bob"; text = codes "hi!"; client = bob }

abbrev by_carl : Line
by_carl = record { now = 104; source = codes "carl"; text = codes "h i!"; client = carl }

program : Unit {0}
unfolding strlower strscpy stricmp irc_stricmp tolower strstrip finduser find_text
program = tt

amy_says : (c : Config) → 100 ≤ 100 + c.sec → IsLine c chan text 100 start by_amy
unfolding program
amy_says c h = record { online = refl; no_oper = refl; in_time = h; same_text = refl }

bob_says : (c : Config) → 101 ≤ 100 + c.sec → IsLine c chan text 100 start by_bob
unfolding program
bob_says c h = record { online = refl; no_oper = refl; in_time = h; same_text = refl }

carl_says : (c : Config) → 104 ≤ 100 + c.sec → IsLine c chan text 100 start by_carl
unfolding program
carl_says c h = record { online = refl; no_oper = refl; in_time = h; same_text = refl }

say_all-below_example :
    let w = say_all (cfg false 4) chan (by_amy ∷ by_bob ∷ by_carl ∷ []) start in
    (w.online ≡ start.online)
    × (w.akills ≡ start.akills)
    × (w.killed ≡ start.killed)
    × (w.sent ≡ start.sent)
    × ((x : TxtFlood) × (find_text 4 text w.flood ≡ some x) × (x.repeat ≡ 3))
unfolding find_text
say_all-below_example =
    say_all-below (cfg false 4) chan text 100 start by_amy (by_bob ∷ by_carl ∷ [])
      (
        amy_says (cfg false 4) (omega arith),
        (bob_says (cfg false 4) (omega arith), (carl_says (cfg false 4) (omega arith), tt)),
      )
      refl refl refl (omega arith)

say_all-akills_example :
    All
      (λ (y : Line).
        is_present
          (strlower (mask_of y.client.host))
          (say
            (cfg false 3)
            chan
            by_carl
            (say_all (cfg false 3) chan (by_amy ∷ by_bob ∷ []) start)).akills.rows
        ≡ true)
      (by_carl ∷ by_amy ∷ by_bob ∷ [])
unfolding find_text
say_all-akills_example =
    say_all-akills (cfg false 3) chan text 100 start by_amy (by_bob ∷ []) by_carl
      (amy_says (cfg false 3) (omega arith), (bob_says (cfg false 3) (omega arith), tt))
      (carl_says (cfg false 3) (omega arith)) refl refl refl refl refl (omega arith)
