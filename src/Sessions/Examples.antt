-- ===== src/Sessions/Examples.antt =====
-- Two connections of a host that may have one session.
use oftc_blitzed.Base.{◌≤◌, ◌≡◌, refl, List, [], ◌∷◌, none, arith, codes, ◌==◌}
use oftc_blitzed.Sessions.{
  Exception, Config, killed, add_session, put, add_to, session_limit, refuse, last_limit,
}
use oftc_blitzed.Sessions.Limit.{
  Network, Reach, here, next, join, nobody, sessions_of, Reach-session_limit,
}

abbrev cfg : Config
cfg = record { def_session_limit = 3; session_kill_clues = 0; irc_match = λ m h. h == 7 }

abbrev one_each : List Exception
one_each = record { mask = codes "*.example"; limit = 1 } ∷ []

second_refused : (add_session cfg one_each 7 (add_session cfg one_each 7 (λ h. none)).0).1 ≡ killed
unfolding add_session put add_to session_limit last_limit refuse
second_refused = refl

abbrev after_one : Network
after_one = record { table = (add_session cfg one_each 7 (λ h. none)).0; connected = 7 ∷ [] }

one_joined : Reach cfg one_each nobody after_one
unfolding add_session
one_joined = next here (join 7 refl refl)

Reach-session_limit_example : sessions_of 7 (7 ∷ []) ≤ session_limit cfg one_each 7
unfolding session_limit last_limit
Reach-session_limit_example =
    Reach-session_limit cfg one_each after_one 7 one_joined (omega arith) (omega arith)
