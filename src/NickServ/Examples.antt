-- ===== src/NickServ/Examples.antt =====
-- Four nicks that are linked.
use oftc_blitzed.Base.{
  ℕ, ◌≡◌, ◌≢◌, refl, true, false, List, [], ◌∷◌, Option, none, some, arith, Bytes, codes,
}
use oftc_blitzed.Text.{stricmp, str_eq, tolower}
use oftc_blitzed.NickServ.{
  Nick, Db, Env, User, Reply, linked, x_unlinked, x_is_link, row_of, link_of, nick_identified,
  mysql_getlink, nick_has_links, update, write_link, link_to, do_link, write_delink, delink,
  unlink_nick, do_unlink, mysql_remove_links, mysql_delete_nick, mysql_delnick,
}
use oftc_blitzed.NickServ.Links.{start, next, by_link, follow, Reach-acyclic}
use oftc_blitzed.NickServ.Flat.{IsFlat, do_link-IsFlat, do_link-deepens}

abbrev nick_row : ℕ → Bytes → ℕ → Nick
nick_row id nick link = record {
  nick_id = id;
  nick = nick;
  link_id = link;
  flags = id;
  channelmax = 0;
  language = 1;
  verboten = false;
  identified = true;
}

abbrev rows : ℕ → ℕ → List Nick
rows amy bob =
    nick_row 1 (codes "amy") amy
    ∷ nick_row 2 (codes "bob") bob
    ∷ nick_row 3 (codes "carl") 0
    ∷ nick_row 4 (codes "dan") 0
    ∷ []

abbrev db_of : List Nick → Db
db_of l = record {
  nicks = l;
  access = record { nick_id = 1; userhost = codes "a@a.org" } ∷ [];
  memos = record { owner = codes "Amy"; text = codes "hi" } ∷ [];
  memoinfo =
      record { owner = codes "carl"; max = 20 } ∷ record { owner = codes "amy"; max = 10 } ∷ [];
}

abbrev env : Env
env = record {
  disable_link = false;
  check_nick_password = λ s id. str_eq s (codes "pw");
  chan_limit = λ id. false;
  is_online = λ s. false;
  escape = λ s. s;
  services_admin = false;
}

-- amy's user; bob's; and amy's when she was linked to dan.
abbrev amy : User
amy = record { real_id = 1; nick_id = 1 }

abbrev bob : User
bob = record { real_id = 2; nick_id = 2 }

abbrev amy_of_dan : User
amy_of_dan = record { real_id = 1; nick_id = 4 }

abbrev plain : Db
plain = db_of (rows 0 0)

program : Unit {0}
unfolding tolower stricmp row_of nick_identified mysql_getlink nick_has_links update write_link
    link_to do_link write_delink delink unlink_nick do_unlink mysql_remove_links mysql_delete_nick
    mysql_delnick follow
program = tt

abbrev to_carl : Option (Bytes × Bytes)
to_carl = some (codes "CARL", codes "pw")

-- amy links to carl, and gives carl her memos; bob may not link to amy.
linked-amy :
    ((do_link env amy to_carl plain).1 ≡ linked)
    × (link_of 1 (do_link env amy to_carl plain).0 ≡ 3)
    × ((do_link env amy to_carl plain).0.memos
        ≡ record { owner = codes "carl"; text = codes "hi" } ∷ [])
    × ((do_link env bob (some (codes "amy", codes "pw")) (do_link env amy to_carl plain).0).1
        ≡ x_is_link)
unfolding program
linked-amy = (refl, refl, refl, refl)

abbrev flags_of : Option (User × Db × Reply) → Option (Reply × Option Nick)
flags_of none = none
flags_of (some (u, d, r)) = some (r, row_of 1 d.nicks)

-- And takes carl's flags when the link is broken.
unlinked-amy :
    flags_of
      (do_unlink env bob (some (codes "amy")) (some (codes "pw")) (do_link env amy to_carl plain).0)
    ≡ some (x_unlinked, some (record (nick_row 1 (codes "amy") 0) { flags = 3 }))
unfolding program
unlinked-amy = refl

no_links : (i : ℕ) → link_of i plain ≡ 0
unfolding program
no_links i = ground arith

Reach-acyclic_example : follow 2 1 (do_link env amy to_carl plain).0 ≢ 1
Reach-acyclic_example =
    Reach-acyclic plain (do_link env amy to_carl plain).0 no_links
      (next plain (do_link env amy to_carl plain).0 start (by_link env amy to_carl)) 1 1
      (omega arith)

plain-IsFlat : IsFlat plain
unfolding IsFlat
plain-IsFlat i o = absurd (o (no_links i))

do_link-IsFlat_example : IsFlat (do_link env amy to_carl plain).0
unfolding mysql_getlink row_of
do_link-IsFlat_example = do_link-IsFlat env amy to_carl plain plain-IsFlat refl

do_link-deepens_example :
    let db' = (do_link env amy_of_dan to_carl (db_of (rows 0 1))).0 in
    (link_of 2 db' ≡ 1) × (link_of 1 db' ≡ 3)
unfolding program
do_link-deepens_example =
    do_link-deepens env amy_of_dan (codes "CARL") (codes "pw") 2 (db_of (rows 0 1)) refl refl
      (omega arith) (omega arith) refl refl refl refl refl refl (omega arith)
