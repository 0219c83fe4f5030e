-- ===== src/Commands/Examples.antt =====
-- A table with two commands; the state is a counter.
use oftc_blitzed.Base.{
  ℕ, ◌+◌, ◌≡◌, refl, true, false, List, [], ◌∷◌, none, some, arith, codes, ◌==◌,
}
use oftc_blitzed.Commands.{
  Command, access_denied, lookup_cmd, run_cmd, help_cmd, skip_spaces, no_help_available,
}
use oftc_blitzed.Commands.Run.{MayRun, run_cmd-MayRun}
use oftc_blitzed.Text.{stricmp, tolower}

abbrev bare : Command ℕ
bare = record {
  name = codes "STATS";
  routine = some (λ u s. s + 1);
  has_priv = none;
  helpmsg_all = none;
  helpmsg_reg = none;
  helpmsg_oper = none;
  helpmsg_admin = none;
  helpmsg_root = some 7;
}

-- Only user 1 may use the second command.
abbrev table : List (Command ℕ)
table =
    bare
    ∷ record bare {
      name = codes "RESTART";
      has_priv = some (λ u s. u == 1);
      routine = some (λ u s. 0);
    }
    ∷ []

denied : run_cmd 2 table (codes "restart") 5 ≡ (5, access_denied ∷ [])
unfolding run_cmd lookup_cmd stricmp tolower
denied = refl

no_help :
    help_cmd (record { root = false; admin = false; oper = true }) table (codes " stats")
    ≡ no_help_available (codes " stats") ∷ []
unfolding help_cmd lookup_cmd stricmp tolower skip_spaces
no_help = refl

run_cmd-MayRun_example : MayRun 1 table (codes "restart") 5 (run_cmd 1 table (codes "restart") 5).0
unfolding run_cmd lookup_cmd stricmp tolower
run_cmd-MayRun_example = run_cmd-MayRun 1 table (codes "restart") 5 (λ e. omega (arith, e))
