-- ===== src/Timeout.antt =====
-- src/timeout.c: the list of timeouts, which check_timeouts walks by its addresses while the routines
-- change it. smalloc answers an address that was never used before. The routine behind a timeout is a
-- parameter, which keeps its `data` in a state of its own, changes that, and adds and deletes
-- timeouts. `none` is a read of a timeout that has been freed.
pub mod Walk
pub mod Check
mod Examples
use oftc_blitzed.Base.{
  ℕ, zero, suc, ◌+◌, Bool, List, [], ◌∷◌, Option, none, some, if◌then◌else◌, ltb, ◌==◌,
}

pub record Timeout : Type 0 where
  pub address : ℕ
  pub settime : ℕ
  pub timeout : ℕ
  pub code : ℕ
  pub repeat : Bool

-- The list, and the next address.
pub record Timeouts : Type 0 where
  pub timeouts : List Timeout
  pub fresh : ℕ

-- What a routine does to the list.
pub data Action : Type 0 where
  add : (delay code : ℕ) (repeat : Bool) → Action
  del : (address : ℕ) → Action

pub add_timeout : ℕ → ℕ → ℕ → Bool → Timeouts → Timeouts
add_timeout now delay code repeat ts = record {
  timeouts =
      record {
        address = ts.fresh;
        settime = now;
        timeout = now + delay;
        code = code;
        repeat = repeat;
      }
      ∷ ts.timeouts;
  fresh = ts.fresh + 1;
}

-- A timeout that is there is taken out, and freed.
pub unlink : ℕ → List Timeout → List Timeout
unlink a [] = []
unlink a (to ∷ l) = if to.address == a then l else to ∷ unlink a l

abbrev pub del_timeout : ℕ → Timeouts → Timeouts
del_timeout a ts = record ts { timeouts = unlink a ts.timeouts }

pub run_actions : ℕ → List Action → Timeouts → Timeouts
unfolding add_timeout unlink
run_actions now [] ts = ts
run_actions now (add delay code repeat ∷ l) ts =
    run_actions now l (add_timeout now delay code repeat ts)
run_actions now (del a ∷ l) ts = run_actions now l (del_timeout a ts)

abbrev pub first : List Timeout → Option ℕ
first [] = none
first (to ∷ l) = some to.address

-- The timeout at an address, and its `next`.
pub deref : ℕ → List Timeout → Option (Timeout × Option ℕ)
deref a [] = none
deref a (to ∷ l) = if to.address == a then some (to, first l) else deref a l

module _ {ℓ} {W : Type ℓ} (call : Timeout → W → W × List Action) where
  -- After the routine: `to2 = to->next`, and the timeout is taken out unless it repeats.
  abbrev pub finish :
      ℕ → Timeouts → W → Option (Timeout × Option ℕ) → Option (Option ℕ × Timeouts × W)
  finish a ts w none = none
  finish a ts w (some (to, next)) = some (next, if to.repeat then ts else del_timeout a ts, w)

  -- One turn of the loop, on the timeout at the address `a`.
  abbrev pub visit :
      ℕ → ℕ → Timeouts → W → Option (Timeout × Option ℕ) → Option (Option ℕ × Timeouts × W)
  visit now a ts w none = none
  visit now a ts w (some (to, next)) =
      if ltb now to.timeout
      then some (next, ts, w)
      else (let (v, actions) = call to w in
          let ts' = run_actions now actions ts in finish a ts' v (deref a ts'.timeouts))

  -- The loop, on fuel; `to` is an address, or NULL.
  pub walk : ℕ → ℕ → Option ℕ → Timeouts → W → Option (W × Timeouts)
  unfolding deref run_actions
  walk now n none ts w = some (w, ts)
  walk now zero (some a) ts w = none
  walk now (suc n) (some a) ts w = elim (visit now a ts w (deref a ts.timeouts)) [
    | none ↦ none
    | some (next, ts', v) ↦ walk now n next ts' v
  ]

  pub check_timeouts : ℕ → ℕ → Timeouts → W → Option (W × Timeouts)
  unfolding walk
  check_timeouts now n ts w = walk now n (first ts.timeouts) ts w
