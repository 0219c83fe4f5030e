-- ===== src/Timeout/Examples.antt =====
-- A run over three timeouts, whose routines count up and ask for another timeout each.
use oftc_blitzed.Base.{
  ℕ, ◌+◌, ◌≡◌, refl, true, false, List, [], ◌∷◌, none, some, arith, ◌==◌, if◌then◌else◌,
}
use oftc_blitzed.Timeout.{
  Timeout, Timeouts, Action, add, del, deref, run_actions, unlink, add_timeout, walk,
  check_timeouts,
}
use oftc_blitzed.Timeout.Check.{call_all, check_timeouts-call_all}

program : Unit {0}
unfolding deref run_actions unlink add_timeout walk check_timeouts call_all
program = tt

-- The new timeouts are due at once.
abbrev count_up : Timeout → ℕ → ℕ × List Action
count_up to n = (n + 1, add 0 n false ∷ [])

abbrev at : ℕ → ℕ → Timeout
at a t = record { address = a; settime = 0; timeout = t; code = 1; repeat = false }

abbrev asked_at : ℕ → ℕ → Timeout
asked_at a n = record { address = a; settime = 10; timeout = 10; code = n; repeat = false }

abbrev three : Timeouts
three = record { timeouts = at 1 5 ∷ at 2 50 ∷ record (at 3 9) { repeat = true } ∷ []; fresh = 4 }

check_timeouts-call_all_example :
    check_timeouts count_up 10 3 three 0
    ≡ some (
      2,
      record {
        timeouts = asked_at 5 1 ∷ asked_at 4 0 ∷ at 2 50 ∷ record (at 3 9) { repeat = true } ∷ [];
        fresh = 6;
      },
    )
unfolding program
check_timeouts-call_all_example =
    check_timeouts-call_all count_up (λ to n. tt) 10 3 three 0 (omega arith)
      (omega arith, (refl, (refl, tt)), (omega arith, (refl, tt), (omega arith, tt, tt))) 2
      (add 0 0 false ∷ add 0 1 false ∷ []) refl

-- A routine that deletes the next timeout does no harm, one that deletes its own is a read of freed
-- memory.
abbrev deletes : ℕ → Timeout → ℕ → ℕ × List Action
deletes a to n = (n + 1, if_first to.address)
  where
    if_first : ℕ → List Action
    if_first b = if b == 1 then del a ∷ [] else []

frees_next :
    check_timeouts (deletes 2) 60 3 three 0
    ≡ some (2, record { timeouts = record (at 3 9) { repeat = true } ∷ []; fresh = 4 })
unfolding program
frees_next = refl

frees_own : check_timeouts (deletes 1) 60 3 three 0 ≡ none
unfolding program
frees_own = refl
