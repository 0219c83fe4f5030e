-- ===== src/Channel/Lock/Bans.antt =====
-- The mode lock leaves the list of bans alone, and what that says of MODE -b.
use oftc_blitzed.Base.{
  ℕ, zero, suc, ◌≡◌, refl, ap, ◌∙◌, inl, inr, false, List, [], ◌∷◌, arith, Bool-cases, Option, none,
  some, Bytes,
}
use oftc_blitzed.Channel.Defs.{Channel}
use oftc_blitzed.Channel.Modes.{Env, run, step, flag_of, other_mode, remove_ban}
use oftc_blitzed.Channel.Lock.{
  Mlock, Command, lock_key, Fix, fix_limit, fix_key, fix_off, send_fix, count_change, begin,
  take_key_off, check_modes, do_cmode,
}
use oftc_blitzed.Channel.Lock.Obeys.{send_fix-chan, run-minus_k}

fix_key-bans :
    (replace : Bytes → Fix → Fix) (want old : Option Bytes) (x : Fix)
    → ((o : Bytes) → (replace o x).chan.bans ≡ x.chan.bans)
    → (fix_key replace want old x).chan.bans ≡ x.chan.bans
unfolding fix_key
fix_key-bans replace none old x h = refl
fix_key-bans replace (some k) none x h = refl
fix_key-bans replace (some k) (some o) x h = ground (arith, h o)

raised-bans :
    (now : ℕ) (lock : Mlock) (c : Channel)
    → (fix_limit lock (begin lock (count_change now c))).chan.bans ≡ c.bans
unfolding fix_limit begin
raised-bans now lock c = ground arith

send_fix-bans : (lock : Mlock) (x : Fix) → (send_fix (fix_off lock x)).0.bans ≡ x.chan.bans
unfolding fix_off
send_fix-bans lock x = ap (λ c. c.bans) (send_fix-chan (fix_off lock x))

take_key_off-bans :
    (env : Env) (check : Channel → Channel × List Command) (o : Bytes) (x : Fix)
    → ((c : Channel) → (check c).0.bans ≡ c.bans)
    → (take_key_off env check o x).chan.bans ≡ x.chan.bans
unfolding take_key_off
take_key_off-bans env check o x h = h _ ∙ ap (λ c. c.bans) (run-minus_k env x.chan o)

pub check_modes-bans :
    (m : ℕ) (env : Env) (lock : Mlock) (c : Channel) → (check_modes m env lock c).0.bans ≡ c.bans
unfolding check_modes
check_modes-bans zero env lock c = refl
check_modes-bans (suc m) env lock c =
    let x = fix_limit lock (begin lock (count_change env.now c)) in
    let replace = take_key_off env (check_modes m env lock) in
    let y = fix_key replace (lock_key lock.key) x.chan.key x in
    let e : (send_fix (fix_off lock y)).0.bans ≡ c.bans =
      send_fix-bans lock y
      ∙ fix_key-bans replace (lock_key lock.key) x.chan.key x
          (λ o. take_key_off-bans env (check_modes m env lock) o x (check_modes-bans m env lock))
      ∙ raised-bans env.now lock c in
    elim (Bool-cases c.bouncy_modes) [ inl b ↦ ground (arith, b) | inr b ↦ ground (arith, b, e) ]

-- MODE -b, from this server, takes the first ban with the mask out, whatever the mode lock is.
pub do_cmode-bans :
    (env : Env) (lock : Mlock) (m last : Bytes) (c : Channel)
    → (do_cmode env lock false last (b'-' ∷ b'b' ∷ []) (m ∷ []) c).0.bans ≡ remove_ban m c.bans
unfolding do_cmode run step flag_of other_mode
do_cmode-bans env lock m last c = check_modes-bans 2 env lock _
