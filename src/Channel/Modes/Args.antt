-- ===== src/Channel/Modes/Args.antt =====
-- How a MODE command uses its parameters.
use oftc_blitzed.Base.{
  ℕ, ◌-◌, ◌≤◌, ◌≡◌, refl, inl, inr, true, List, [], ◌∷◌, arith, length, Bytes, Option-cases,
}
use oftc_blitzed.Channel.Defs.{Channel}
use oftc_blitzed.Channel.Modes.{
  Env, Cmode, flag_of, shift, other_mode, flag_mode, step, run, unlist,
}

-- Each parameter that counts is there.
abbrev pub HasArgs : Cmode → Type 0
HasArgs st = st.ac ≤ length st.av

length-shift : (av : List Bytes) → length (shift av) ≡ length av - 1
length-shift [] = refl
length-shift (a ∷ av) = omega arith

other_mode-HasArgs : (env : Env) (c : ℕ) (st : Cmode) → HasArgs st → HasArgs (other_mode env c st)
unfolding other_mode
other_mode-HasArgs env c st h = ground (arith, length-shift st.av)

step-HasArgs : (env : Env) (c : ℕ) (st : Cmode) → HasArgs st → HasArgs (step env c st)
unfolding step flag_mode
step-HasArgs env c st h = elim (Option-cases (flag_of c)) [
  | inl e ↦ rw (e, step) (other_mode-HasArgs env c st h)
  | inr (f, e) ↦ rw (e, step, flag_mode) h
]

-- A MODE command never reads behind its parameters: as long as `ac` is not 0 there is a parameter
-- at `*av`, before each letter and after the last.
pub run-HasArgs : (env : Env) (s : Bytes) (st : Cmode) → HasArgs st → HasArgs (run env s st)
unfolding run
run-HasArgs env [] st h = h
run-HasArgs env (c ∷ s) st h = run-HasArgs env s (step env c st) (step-HasArgs env c st h)

-- The letters `-k` use up a parameter and do not move past it: of "-ko key nick" the letter o gets
-- the key in place of the nick.
pub run-minus_k_o :
    (env : Env) (c : Channel) (key nick : Bytes)
    → (run env
        (b'-' ∷ b'k' ∷ b'o' ∷ [])
        (record { chan = c; add = true; ac = 2; av = key ∷ nick ∷ [] })).chan.chanops
      ≡ unlist env key c.chanops
unfolding run step flag_of other_mode
run-minus_k_o env c key nick = refl
