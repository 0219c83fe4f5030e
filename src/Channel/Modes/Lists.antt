-- ===== src/Channel/Modes/Lists.antt =====
-- The lists of operators and voiced users under a MODE command.
use oftc_blitzed.Base.{
  mem, ℕ, ◌≡◌, refl, inl, inr, Bool, true, false, List, [], ◌∷◌, arith, some, Bytes, Option-cases,
}
use oftc_blitzed.Channel.Defs.{Channel}
use oftc_blitzed.Channel.Members.Removal.{Distinct}
use oftc_blitzed.Channel.Modes.{
  Env, Cmode, flag_of, arg, other_mode, flag_mode, step, run, unlist, enlist, listed, has_nick,
}

-- finduser answers a user whose nick is the one asked for, up to case.
abbrev pub FindsByNick : Env → Type 0
FindsByNick env = (nick : Bytes) (u : ℕ) → env.finduser nick ≡ some u → has_nick env nick u ≡ true

mem-listed :
    (env : Env) (nick : Bytes) (u : ℕ) (l : List ℕ)
    → has_nick env nick u ≡ true
    → listed env nick l ≡ false
    → mem u l ≡ false
unfolding listed
mem-listed env nick u [] h e = refl
mem-listed env nick u (v ∷ l) h e = ground (arith, mem-listed env nick u l h)

enlist-Distinct :
    (env : Env) (allowed : ℕ → Bool) (nick : Bytes) (l : List ℕ)
    → FindsByNick env
    → Distinct l
    → Distinct (enlist env allowed nick l)
unfolding enlist
enlist-Distinct env allowed nick l finds d = elim (Option-cases (env.finduser nick)) [
  | inl e ↦ rw (e, enlist) (ground arith)
  | inr (u, e) ↦ rw (e, enlist) (ground (arith, mem-listed env nick u l (finds nick u e)))
]

mem-unlist :
    (env : Env) (nick : Bytes) (u : ℕ) (l : List ℕ)
    → mem u l ≡ false
    → mem u (unlist env nick l) ≡ false
unfolding unlist
mem-unlist env nick u [] h = refl
mem-unlist env nick u (v ∷ l) h = ground (arith, mem-unlist env nick u l)

unlist-Distinct :
    (env : Env) (nick : Bytes) (l : List ℕ) → Distinct l → Distinct (unlist env nick l)
unfolding unlist
unlist-Distinct env nick [] d = tt
unlist-Distinct env nick (v ∷ l) d =
    ground (arith, unlist-Distinct env nick l d.1, mem-unlist env nick v l d.0)

-- No operator and no voiced user is listed twice.
abbrev pub AreDistinct : Channel → Type 0
AreDistinct c = Distinct c.chanops × Distinct c.voices

other_mode-AreDistinct :
    (env : Env) (c : ℕ) (st : Cmode)
    → FindsByNick env
    → AreDistinct st.chan
    → AreDistinct (other_mode env c st).chan
unfolding other_mode
other_mode-AreDistinct env c st finds d =
    let nick = arg st.av in
    let valid = λ (u : ℕ). env.check_valid_op u env.from_server in
    ground (
      arith,
      enlist-Distinct env valid nick st.chan.chanops finds d.0,
      enlist-Distinct env (λ u. true) nick st.chan.voices finds d.1,
      unlist-Distinct env nick st.chan.chanops d.0,
      unlist-Distinct env nick st.chan.voices d.1,
    )

step-AreDistinct :
    (env : Env) (c : ℕ) (st : Cmode)
    → FindsByNick env
    → AreDistinct st.chan
    → AreDistinct (step env c st).chan
unfolding step flag_mode
step-AreDistinct env c st finds d = elim (Option-cases (flag_of c)) [
  | inl e ↦ rw (e, step) (other_mode-AreDistinct env c st finds d)
  | inr (f, e) ↦ rw (e, step, flag_mode) d
]

-- A MODE command lists no operator and no voiced user twice, provided that none was before.
pub run-AreDistinct :
    (env : Env) (s : Bytes) (st : Cmode)
    → FindsByNick env
    → AreDistinct st.chan
    → AreDistinct (run env s st).chan
unfolding run
run-AreDistinct env [] st finds d = d
run-AreDistinct env (c ∷ s) st finds d =
    run-AreDistinct env s (step env c st) finds (step-AreDistinct env c st finds d)
