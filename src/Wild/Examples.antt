-- ===== src/Wild/Examples.antt =====
-- Runs of the matcher.
use oftc_blitzed.Base.{◌≡◌, refl, true, arith, codes}
use oftc_blitzed.Wild.{do_match_wild, match_wild, match_wild_nocase}
use oftc_blitzed.Wild.Pattern.{Matches, do_match_wild_sound}
use oftc_blitzed.Wild.Complete.{do_match_wild_complete}

backtracks : match_wild (codes "*ab?") (codes "xabab!") ≡ true
unfolding match_wild
backtracks = refl

folds_case : match_wild_nocase (codes "*@HOST.*") (codes "u@host.net") ≡ true
unfolding match_wild_nocase
folds_case = refl

do_match_wild_sound_example : Matches true (codes "a*b") (codes "axb")
unfolding do_match_wild
do_match_wild_sound_example = do_match_wild_sound true (codes "a*b") (codes "axb") refl

do_match_wild_complete_example : do_match_wild true (codes "a*b") (codes "axb") ≡ true
unfolding do_match_wild
do_match_wild_complete_example =
    do_match_wild_complete true (codes "a*b") (codes "axb") (omega arith)
      (do_match_wild_sound true (codes "a*b") (codes "axb") refl)
