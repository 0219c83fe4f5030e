-- ===== src/Users/Opers/Examples.antt =====
-- A user who becomes an operator, and one who only seems to stop being one.
use oftc_blitzed.Base.{
  ◌≡◌, refl, sym, ap, ◌∙◌, Bool, true, false, [], ◌∷◌, Option, none, some, codes, length,
}
use oftc_blitzed.Text.{stricmp, irc_stricmp, tolower, strscpy}
use oftc_blitzed.Users.Opers.{
  Users, Online, umode_o, no_modes, new_user, finduser, do_umode, umode_run, umode_step, is_umode,
  minus_a,
}
use oftc_blitzed.Users.Opers.Count.{opers, IsCounted}
use oftc_blitzed.Users.Opers.Reach.{
  nobody, Reach, here, next, connect, umode, Reach-IsCounted, do_umode-miscounts,
}

abbrev amy : Online
amy = record { nick = codes "amy"; mode = no_modes }

abbrev with_amy : Users
with_amy = record { userlist = amy ∷ []; usercnt = 1; opcnt = 0 }

connected : with_amy ≡ new_user (codes "amy") nobody
unfolding new_user strscpy
connected = refl

no_admin : (do_umode true (codes "amy") (codes "Amy") (codes "+ia") with_amy).1 ≡ minus_a ∷ []
unfolding do_umode finduser irc_stricmp stricmp tolower umode_run umode_step is_umode
no_admin = refl

found : finduser (codes "amy") with_amy.userlist ≡ some amy
unfolding finduser irc_stricmp tolower
found = refl

abbrev oper : Option Online → Bool
oper none = false
oper (some u) = u.mode umode_o

abbrev opered : Users
opered = (do_umode true (codes "amy") (codes "amy") (codes "+io") with_amy).0

opered-Reach : Reach nobody opered
opered-Reach = next (next here (connect (codes "amy") connected)) (
    umode true (codes "amy") (codes "amy") (codes "+io") (λ u e. (ap oper (sym e ∙ found), tt))
      refl)

Reach-IsCounted_example : IsCounted opered
Reach-IsCounted_example = Reach-IsCounted opered opered-Reach

do_umode-miscounts_example :
    (opers (do_umode true (codes "amy") (codes "amy") (codes "-o") with_amy).0.userlist ≡ 0)
    × (length (do_umode true (codes "amy") (codes "amy") (codes "-o") with_amy).0.userlist ≡ 1)
    × ((do_umode true (codes "amy") (codes "amy") (codes "-o") with_amy).0.opcnt ≡ 4294967295)
    × ¬ IsCounted (do_umode true (codes "amy") (codes "amy") (codes "-o") with_amy).0
do_umode-miscounts_example =
    do_umode-miscounts true (codes "amy") with_amy amy found refl (refl, refl)
