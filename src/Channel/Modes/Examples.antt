-- ===== src/Channel/Modes/Examples.antt =====
-- Runs of MODE commands.
use oftc_blitzed.Base.{
  ℕ, ◌≡◌, refl, true, false, List, [], ◌∷◌, arith, Bytes, codes, inl, inr, Bool-cases,
}
use oftc_blitzed.Text.{stricmp, tolower, str_eq}
use oftc_blitzed.Text.Fold.{str_eq-stricmp}
use oftc_blitzed.Channel.Defs.{secret}
use oftc_blitzed.Channel.Samples.{lobby, env}
use oftc_blitzed.Channel.Modes.{Cmode, step, run, flag_of, flag_mode, other_mode, enlist, listed}
use oftc_blitzed.Channel.Modes.Effect.{run-mode, or_old, effect}
use oftc_blitzed.Channel.Modes.Lists.{FindsByNick}

abbrev start : List Bytes → ℕ → Cmode
start av ac = record { chan = lobby; add = true; ac = ac; av = av }

two_ops : (run env (codes "+ov") (start (codes "Bob" ∷ codes "cleo" ∷ []) 2)).chan.voices ≡ 9 ∷ []
unfolding run step flag_of flag_mode other_mode enlist listed stricmp tolower
two_ops = refl

run-mode_example :
    (run env (codes "+s-st") (start [] 0)).chan.mode secret
    ≡ or_old false (effect secret true (codes "+s-st"))
run-mode_example = run-mode env (codes "+s-st") (start [] 0) secret

env-FindsByNick : FindsByNick env
env-FindsByNick nick u e =
    let amy = str_eq-stricmp (codes "amy") nick in
    let bob = str_eq-stricmp (codes "bob") nick in
    let cleo = str_eq-stricmp (codes "cleo") nick in
    elim (Bool-cases (str_eq nick (codes "amy"))) [
      | inl a ↦ ground (arith, amy a)
      | inr a ↦ elim (Bool-cases (str_eq nick (codes "bob"))) [
        | inl b ↦ ground (arith, bob b)
        | inr b ↦ elim (Bool-cases (str_eq nick (codes "cleo"))) [
          | inl c ↦ ground (arith, cleo c)
          | inr c ↦ ground arith
        ]
      ]
    ]
