-- ===== src/Akill/Examples.antt =====
-- A mask that is set, kills, and is taken out.
use oftc_blitzed.Base.{
  ℕ, ◌<◌, ◌≡◌, ◌≢◌, refl, true, false, List, [], ◌∷◌, ◌++◌, some, arith, codes, Bytes, ◌==◌,
}
use oftc_blitzed.Text.{strlower, strscpy, stricmp, tolower}
use oftc_blitzed.Wild.{
  match_wild, match_wild_nocase, do_match_wild, after_star, after_any, after_byte, try_suffixes,
  same,
}
use oftc_blitzed.Users.Mask.{
  User, word_of, after_word, skip, strtok, has, match_parts, match_usermask, count_mask_matches,
}
use oftc_blitzed.Akill.{
  Akill, Akills, Sent, kline, kill, new_akill, add_akill, added, send_akill, user_host, check_akill,
  expire_akills, Owner, del_akill,
}
use oftc_blitzed.Akill.Check.{check_akill-add_akill}
use oftc_blitzed.Akill.Command.{
  Config, Setter, Answer, akill_added, nonwild, add_mask, add_counted, do_akill_add,
}
use oftc_blitzed.Akill.Command.Limits.{IsModest, do_akill_add-IsModest}
use oftc_blitzed.Akill.Command.Total.{do_akill_add-IsGiven}
use oftc_blitzed.Akill.Command.Permanent.{IsAllowed, do_akill_add-permanent}

abbrev empty : Akills
empty = record { rows = []; next_id = 7 }

abbrev bad : Bytes
bad = codes "*@bad.org"

abbrev row : Akill
row = new_akill bad (codes "spam") (codes "amy") 0 7

abbrev table : Akills
table = record { rows = row ∷ []; next_id = 8 }

program : Unit {0}
unfolding strlower strscpy stricmp tolower match_wild match_wild_nocase do_match_wild after_star
    after_any after_byte try_suffixes same word_of after_word skip strtok has match_parts
    match_usermask count_mask_matches add_akill send_akill user_host check_akill expire_akills
    del_akill nonwild add_mask add_counted do_akill_add
program = tt

check_akill-add_akill_example :
    ((add_akill true bad (codes "spam") (codes "amy") 0 empty).1 ≡ added)
    × (check_akill
          (codes "bob")
          (codes "b")
          (codes "BAD.org")
          (expire_akills false true 900
            (add_akill true bad (codes "spam") (codes "amy") 0 empty).0).0
        ≡ (true, kill (codes "bob") 7 ∷ kline (codes "*") (codes "bad.org") ∷ []))
unfolding program
check_akill-add_akill_example =
    check_akill-add_akill true false true bad (codes "spam") (codes "amy") 0 900 (codes "bob")
      (codes "b") (codes "BAD.org") empty (omega arith) refl refl (λ n. absurd (n refl))

abbrev amy_again : Owner
amy_again = record { services_oper = false; nick_id = 5; findnick = λ n. 5; getlink = λ i. 3 }

-- Four bytes of the host have to be its own.
abbrev cfg : Config
cfg = record {
  autokill_expiry = 3600;
  akill_wild_thresh = 4;
  immediately_send_akill = true;
  dotime = λ s. some 0;
}

abbrev amy : Setter
amy = record { nick = codes "amy"; identified = true; svs_operadmin = 0 }

abbrev online : List User
online = record { nick = codes "bob"; username = codes "b"; host = codes "bad.org" } ∷ []

abbrev with_row : Akills
with_row = record { rows = new_akill bad (codes "spam") (codes "amy") 4500 7 ∷ []; next_id = 8 }

do_akill_add-IsModest_example :
    IsModest cfg online amy 900 empty with_row 1 × (true ≡ true) × (0 < 32767)
unfolding program
do_akill_add-IsModest_example =
    do_akill_add-IsModest cfg online amy 900 empty (codes "*@bad.org spam") with_row 1
      (kline (codes "*") (codes "bad.org") ∷ []) refl refl

do_akill_add-IsGiven_example :
    (r : Akills × Answer × List Sent) × (do_akill_add cfg online amy 900 (codes "+0 !@x y") empty
      ≡ some r)
do_akill_add-IsGiven_example = do_akill_add-IsGiven cfg online amy 900 empty (codes "+0 !@x y")

graphic : (c : ℕ) → (c == b' ') ≡ false → c ≢ b' '
graphic c h e = ground (arith, h, e)

bad-IsAllowed : IsAllowed cfg online empty bad 1
unfolding program
bad-IsAllowed = record {
  token = (
    graphic b'*' refl,
    (
      graphic b'@' refl,
      (
        graphic b'b' refl,
        (
          graphic b'a' refl,
          (
            graphic b'd' refl,
            (graphic b'.' refl, (graphic b'o' refl, (graphic b'r' refl, (graphic b'g' refl, tt)))),
          ),
        ),
      ),
    ),
  );
  no_keyword = refl;
  shape = (refl, refl);
  specific = refl;
  counted = refl;
  few = omega arith;
  new = refl;
  room = omega arith;
}

do_akill_add-permanent_example :
    (sent : List Sent) × (do_akill_add cfg online amy 900
        (codes "+0" ++ b' ' ∷ (bad ++ b' ' ∷ codes "spam"))
        empty
      ≡ some (
        record {
          rows = new_akill (strlower bad) (codes "spam") (codes "amy") 0 7 ∷ [];
          next_id = 8;
        },
        akill_added 1,
        sent,
      ))
do_akill_add-permanent_example =
    do_akill_add-permanent cfg online amy 900 empty bad (codes "spam") 1 refl refl refl
      bad-IsAllowed tt
