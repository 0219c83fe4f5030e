-- ===== src/Channel/Modes/Effect.antt =====
-- Which of the one-bit modes a MODE command leaves set.
use oftc_blitzed.Base.{
  ℕ, ◌≡◌, refl, sym, ◌∙◌, inl, inr, Bool, true, false, [], ◌∷◌, arith, ◌==◌, if◌then◌else◌, Option,
  some, none, Bytes, Option-cases,
}
use oftc_blitzed.Channel.Defs.{Flag}
use oftc_blitzed.Channel.Modes.{
  Env, Cmode, bit, flag_of, set_flag, other_mode, flag_mode, step, run,
}

-- The sign in force behind the letter c.
abbrev pub sign : ℕ → Bool → Bool
sign c add = if c == b'+' then true else if c == b'-' then false else add

abbrev pub later_or : Option Bool → Bool → Option Bool
later_or none now = some now
later_or (some b) now = some b

-- Does the letter c stand for the flag?
unfoldable pub names : Flag → ℕ → Bool
names f c = elim (flag_of c) [ none ↦ false | some g ↦ bit f == bit g ]

-- The sign of the last letter for the flag, read from the right.
abbrev pub effect : Flag → Bool → Bytes → Option Bool
effect f add [] = none
effect f add (c ∷ s) =
    let later = effect f (sign c add) s in if names f c then later_or later (sign c add) else later

abbrev pub or_old : Bool → Option Bool → Bool
or_old old none = old
or_old old (some b) = b

flag_of-sign : (c : ℕ) (f : Flag) → flag_of c ≡ some f → (add : Bool) → sign c add ≡ add
unfolding flag_of
flag_of-sign c f e add = ground arith

other_mode-add : (env : Env) (c : ℕ) (st : Cmode) → (other_mode env c st).add ≡ sign c st.add
unfolding other_mode
other_mode-add env c st = ground arith

other_mode-mode : (env : Env) (c : ℕ) (st : Cmode) → (other_mode env c st).chan.mode ≡ st.chan.mode
unfolding other_mode
other_mode-mode env c st = ground arith

step-add : (env : Env) (c : ℕ) (st : Cmode) → (step env c st).add ≡ sign c st.add
unfolding step flag_mode set_flag names
step-add env c st = elim (Option-cases (flag_of c)) [
  | inl e ↦ rw (e, step) (other_mode-add env c st)
  | inr (f, e) ↦ rw (e, step, flag_mode) (sym (flag_of-sign c f e st.add))
]

step-mode :
    (env : Env) (c : ℕ) (st : Cmode) (f : Flag)
    → (step env c st).chan.mode f ≡ (if names f c then sign c st.add else st.chan.mode f)
unfolding step flag_mode set_flag names
step-mode env c st f = elim (Option-cases (flag_of c)) [
  | inl e ↦ rw (e, step, names, other_mode-mode env c st)
  | inr (g, e) ↦ rw (e, step, names, flag_mode, flag_of-sign c g e st.add, set_flag)
]

last_wins :
    (named old now : Bool) (later : Option Bool)
    → or_old (if named then now else old) later
      ≡ or_old old (if named then later_or later now else later)
last_wins true old now none = refl
last_wins true old now (some b) = refl
last_wins false old now none = refl
last_wins false old now (some b) = refl

-- After the letters of a MODE command a flag has the sign of the last letter that stands for it,
-- and keeps its value if there is none. The other modes and the parameters have no part in it.
pub run-mode :
    (env : Env) (s : Bytes) (st : Cmode) (f : Flag)
    → (run env s st).chan.mode f ≡ or_old (st.chan.mode f) (effect f st.add s)
unfolding run
run-mode env [] st f = refl
run-mode env (c ∷ s) st f =
    run-mode env s (step env c st) f
    ∙ rw (step-add env c st, step-mode env c st f)
        (last_wins (names f c) (st.chan.mode f) (sign c st.add) (effect f (sign c st.add) s))
