-- ===== src/Actions.antt =====
-- src/actions.c: users who give wrong passwords. The time of a kill is the answer `true`.
pub mod Limit
mod Examples
use oftc_blitzed.Base.{
  ℕ, ◌+◌, ◌%◌, ◌^◌, Bool, true, false, not, ◌&&◌, List, [], ◌∷◌, ◌==◌, if◌then◌else◌, ltb, leb,
}

-- invalid_pw_count and invalid_pw_time of a user. The count is a short: from 2 ^ 15 on it is negative.
pub record Attempts : Type 0 where
  pub count : ℕ
  pub time : ℕ

-- BadPassLimit and BadPassTimeout
pub record Config : Type 0 where
  pub limit : ℕ
  pub timeout : ℕ

abbrev pub is_forgotten : Config → ℕ → Attempts → Bool
is_forgotten cfg now a = ltb 0 cfg.timeout && ltb 0 a.time && ltb (a.time + cfg.timeout) now

unfoldable pub bad_password : Config → ℕ → Attempts → Attempts × Bool
bad_password cfg now a =
    if cfg.limit == 0
    then (a, false)
    else (let count = ((if is_forgotten cfg now a then 0 else a.count) + 1) % 2 ^ 16 in
        (record { count = count; time = now }, ltb count (2 ^ 15) && leb cfg.limit count))
