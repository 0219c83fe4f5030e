-- ===== src/Actions/Examples.antt =====
-- Three wrong passwords.
use oftc_blitzed.Base.{◌≡◌, refl, true, false, [], ◌∷◌, arith, inl}
use oftc_blitzed.Actions.{Attempts, Config}
use oftc_blitzed.Actions.Limit.{attempts, attempts-last_kills}

abbrev cfg : Config
cfg = record { limit = 3; timeout = 60 }

abbrev start : Attempts
start = record { count = 0; time = 0 }

attempts-last_kills_example : attempts cfg (100 ∷ 130 ∷ 190 ∷ []) start ≡ false ∷ false ∷ true ∷ []
attempts-last_kills_example =
    attempts-last_kills cfg 100 (130 ∷ 190 ∷ []) start refl refl (omega arith)
      (inl (omega arith), (inl (omega arith), tt))
