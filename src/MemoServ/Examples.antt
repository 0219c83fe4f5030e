-- ===== src/MemoServ/Examples.antt =====
-- Memos for two nicks and a channel.
use oftc_blitzed.Base.{
  ℕ, ◌≡◌, refl, ◌⊎◌, true, false, [], ◌∷◌, none, some, arith, Bytes, codes, ◌==◌, if◌then◌else◌,
}
use oftc_blitzed.Text.{stricmp, tolower, str_eq}
use oftc_blitzed.Users.Mask.{has}
use oftc_blitzed.MemoServ.{
  Memo, MemoInfo, Db, User, Env, info_of, count_memos, number_from, rot13, get_memoinfo_from_owner,
  send_memo, send_to, do_send, delete_memos,
}
use oftc_blitzed.MemoServ.Numbers.{numbers, count_up, delete_memos-numbers}
use oftc_blitzed.MemoServ.Room.{Arrives, do_send-Arrives}
use oftc_blitzed.MemoServ.Limit.{
  Settings, Limits, set_memo_limit, admin_limit, do_set_limit, do_set_limit-own,
}

abbrev amy : Bytes
amy = codes "amy"

abbrev carol : Bytes
carol = codes "#carol"

abbrev memo : ℕ → Bytes → ℕ → Memo
memo id owner idx = record {
  memo_id = id;
  owner = owner;
  idx = idx;
  unread = true;
  time = id;
  sender = codes "bob";
  text = codes "hi";
}

abbrev amy_info : MemoInfo
amy_info = record { memoinfo_id = 1; owner = amy; max = some 3 }

abbrev chan_info : MemoInfo
chan_info = record { memoinfo_id = 2; owner = carol; max = some 5 }

abbrev db : Db
db = record {
  memos = memo 1 amy 1 ∷ memo 2 carol 1 ∷ memo 3 (codes "AMY") 2 ∷ [];
  infos = amy_info ∷ chan_info ∷ [];
  next_id = 4;
}

abbrev env : Env
env = record {
  findnick = λ s. if str_eq s amy then 7 else 0;
  getlink = λ i. i;
  nick_of = λ i. some amy;
  findchan = λ s. if str_eq s carol then 9 else 0;
  nick_verboten = λ i. false;
  chan_verboten = λ i. false;
  may_send = λ i. true;
  picks = λ s i. i == 1;
  send_delay = 10;
  rot13 = false;
}

abbrev bob : User
bob = record {
  nick = codes "bob";
  real_id = 8;
  lastmemosend = 0;
  recognized = true;
  identified = true;
  services_admin = false;
}

abbrev admin : User
admin = record {
  nick = amy;
  real_id = 7;
  lastmemosend = 0;
  recognized = true;
  identified = true;
  services_admin = true;
}

program : Unit {0}
unfolding tolower stricmp has count_memos number_from rot13 get_memoinfo_from_owner send_memo
    send_to do_send delete_memos set_memo_limit do_set_limit
program = tt

do_send-Arrives_example :
    ((do_send env 100 bob (some (amy, codes "hello")) db).1 ≡ db)
    ⊎ Arrives env 100 amy 3 (do_send env 100 bob (some (amy, codes "hello")) db) db
unfolding program
do_send-Arrives_example =
    do_send-Arrives env 100 bob amy (codes "hello") db amy_info 3 refl refl refl

-- The memo does arrive, as number 3.
sent_third :
    numbers amy (do_send env 100 bob (some (amy, codes "hello")) db).1.memos ≡ 1 ∷ 2 ∷ 3 ∷ []
unfolding program
sent_third = refl

rotated : rot13 (codes "Hello!") ≡ codes "Uryyb!"
unfolding program
rotated = refl

delete_memos-numbers_example :
    numbers amy (delete_memos env amy (codes "1") db).memos
    ≡ count_up 0 (count_memos amy (delete_memos env amy (codes "1") db).memos)
delete_memos-numbers_example = delete_memos-numbers env amy (codes "1") db

abbrev cfg : Settings
cfg = record { atoi = λ s. some 20; max_memos = 20; may_set = λ i. true }

abbrev limits : Limits
limits = record { infos = db.infos; hard_nick = λ i. false; hard_chan = λ i. false }

do_set_limit-own_example :
    let st' = (do_set_limit env cfg admin (some carol) (some (codes "20")) none none limits).0 in
    (st'.infos ≡ set_memo_limit 1 (admin_limit cfg (codes "20")) limits.infos)
    × (info_of carol st'.infos ≡ some chan_info)
unfolding program
do_set_limit-own_example =
    do_set_limit-own env cfg admin carol (codes "20") chan_info amy_info limits refl (omega arith)
      refl refl refl refl (omega arith)
