-- ===== src/Channel/Lock/Obeys.antt =====
-- What a channel looks like after check_modes.
use oftc_blitzed.Base.{
  ℕ, suc, ◌≡◌, refl, ap, sym, subst, ◌∙◌, inl, inr, Bool, true, false, not, [], ◌∷◌, arith,
  Bool-cases, ◌==◌, if◌then◌else◌, Option, some, none, Bytes, ◌&&◌, ◌||◌,
}
use oftc_blitzed.Text.{str_eq}
use oftc_blitzed.Channel.Defs.{Channel, Flag}
use oftc_blitzed.Channel.Modes.{Env, run, step, flag_of, other_mode}
use oftc_blitzed.Channel.Lock.{
  Mlock, lock_key, Fix, fix_limit, fix_key, fix_off, send_fix, count_change, begin, take_key_off,
  check_modes,
}
use oftc_blitzed.Channel.Lock.Turn.{turn-order}

-- The mode, the limit and the key that the lock makes of those of a channel.
abbrev pub locked_flag : Mlock → Channel → Flag → Bool
locked_flag lock c f = if lock.off f then false else lock.on f || c.mode f

abbrev pub locked_limit : Mlock → Channel → ℕ
locked_limit lock c = if lock.off_limit then 0 else if lock.limit == 0 then c.limit else lock.limit

abbrev pub or_key : Option Bytes → Option Bytes → Option Bytes
or_key none key = key
or_key (some k) key = some k

abbrev pub locked_key : Mlock → Channel → Option Bytes
locked_key lock c = if lock.off_key then none else or_key (lock_key lock.key) c.key

pub record IsLocked (lock : Mlock) (c d : Channel) : Type 0 where
  pub flags : (f : Flag) → d.mode f ≡ locked_flag lock c f
  pub limit : d.limit ≡ locked_limit lock c
  pub key : d.key ≡ locked_key lock c

-- The same in front of the minus sign.
record IsRaised (lock : Mlock) (c d : Channel) : Type 0 where
  flags : (f : Flag) → d.mode f ≡ (lock.on f || c.mode f)
  limit : d.limit ≡ (if lock.limit == 0 then c.limit else lock.limit)
  key : d.key ≡ c.key
  calm : d.bouncy_modes ≡ c.bouncy_modes

abbrev raised : ℕ → Mlock → Channel → Fix
raised now lock c = fix_limit lock (begin lock (count_change now c))

begin-flags :
    (lock : Mlock) (c : Channel) (f : Flag) → (begin lock c).chan.mode f ≡ (lock.on f || c.mode f)
unfolding begin
begin-flags lock c f = turn-order true (λ g. not (c.mode g) && lock.on g) c.mode f ∙ ground arith

fix_limit-limit :
    (lock : Mlock) (x : Fix)
    → (fix_limit lock x).chan.limit ≡ (if lock.limit == 0 then x.chan.limit else lock.limit)
unfolding fix_limit
fix_limit-limit lock x = ground arith

module _ (lock : Mlock) (x : Fix) where
  fix_limit-mode : (fix_limit lock x).chan.mode ≡ x.chan.mode
  unfolding fix_limit
  fix_limit-mode = ground arith

  fix_limit-key : (fix_limit lock x).chan.key ≡ x.chan.key
  unfolding fix_limit
  fix_limit-key = ground arith

  fix_limit-bouncy_modes : (fix_limit lock x).chan.bouncy_modes ≡ x.chan.bouncy_modes
  unfolding fix_limit
  fix_limit-bouncy_modes = ground arith

begin-rest :
    (lock : Mlock) (c : Channel)
    → ((begin lock c).chan.limit ≡ c.limit)
      × ((begin lock c).chan.key ≡ c.key)
      × ((begin lock c).chan.bouncy_modes ≡ c.bouncy_modes)
unfolding begin
begin-rest lock c = (refl, refl, refl)

raised-IsRaised : (now : ℕ) (lock : Mlock) (c : Channel) → IsRaised lock c (raised now lock c).chan
raised-IsRaised now lock c =
    let x = begin lock (count_change now c) in
    let r = begin-rest lock (count_change now c) in
    record {
      flags = λ f. ap (λ m. m f) (fix_limit-mode lock x) ∙ begin-flags lock (count_change now c) f;
      limit = fix_limit-limit lock x ∙ ap (λ l. if lock.limit == 0 then l else lock.limit) r.0;
      key = fix_limit-key lock x ∙ r.1;
      calm = fix_limit-bouncy_modes lock x ∙ r.2;
    }

fix_off-flags :
    (lock : Mlock) (x : Fix) (f : Flag)
    → (fix_off lock x).chan.mode f ≡ (if lock.off f then false else x.chan.mode f)
unfolding fix_off
fix_off-flags lock x f =
    turn-order false (λ g. x.chan.mode g && lock.off g) x.chan.mode f ∙ ground arith

fix_off-limit :
    (lock : Mlock) (x : Fix)
    → (fix_off lock x).chan.limit ≡ (if lock.off_limit then 0 else x.chan.limit)
unfolding fix_off
fix_off-limit lock x = ground arith

fix_off-key :
    (lock : Mlock) (x : Fix)
    → (fix_off lock x).chan.key ≡ (if lock.off_key then none else x.chan.key)
unfolding fix_off
fix_off-key lock x = ground arith

pub send_fix-chan : (x : Fix) → (send_fix x).0 ≡ x.chan
unfolding send_fix
send_fix-chan x = ground arith

str_eq-same : (s t : Bytes) → str_eq s t ≡ true → s ≡ t
str_eq-same [] [] h = refl
str_eq-same [] (d ∷ t) h = cc
str_eq-same (c ∷ s) [] h = cc
str_eq-same (c ∷ s) (d ∷ t) h = ground (arith, str_eq-same s t)

-- What is missing from the lock by then is what stands behind the minus sign.
record IsKept (lock : Mlock) (c d : Channel) : Type 0 where
  flags : (f : Flag) → (if lock.off f then false else d.mode f) ≡ locked_flag lock c f
  limit : (if lock.off_limit then 0 else d.limit) ≡ locked_limit lock c

record IsReady (lock : Mlock) (c d : Channel) : Type 0 where
  kept : IsKept lock c d
  key : (if lock.off_key then none else d.key) ≡ locked_key lock c

fix_off-IsLocked :
    (lock : Mlock) (c : Channel) (x : Fix)
    → IsReady lock c x.chan
    → IsLocked lock c (send_fix (fix_off lock x)).0
fix_off-IsLocked lock c x r =
    subst (λ d. IsLocked lock c d) (sym (send_fix-chan (fix_off lock x)))
      (record {
        flags = λ f. fix_off-flags lock x f ∙ r.kept.flags f;
        limit = fix_off-limit lock x ∙ r.kept.limit;
        key = fix_off-key lock x ∙ r.key;
      })

raised-IsKept : (lock : Mlock) (c d : Channel) → IsRaised lock c d → IsKept lock c d
raised-IsKept lock c d r = record { flags = λ f. rw (r.flags f); limit = rw r.limit }

fix_key-IsReady :
    (replace : Bytes → Fix → Fix) (lock : Mlock) (c : Channel) (x : Fix) (want old : Option Bytes)
    → IsRaised lock c x.chan
    → x.chan.key ≡ old
    → lock_key lock.key ≡ want
    → ((o : Bytes) → old ≡ some o → IsKept lock c (replace o x).chan)
    → IsReady lock c (fix_key replace want old x).chan
unfolding fix_key
fix_key-IsReady replace lock c x none old r e w h = record {
  kept = raised-IsKept lock c x.chan r;
  key = rw (w, r.key);
}
fix_key-IsReady replace lock c x (some k) none r e w h = record {
  kept = record {
    flags = (raised-IsKept lock c x.chan r).flags;
    limit = (raised-IsKept lock c x.chan r).limit;
  };
  key = rw w;
}
fix_key-IsReady replace lock c x (some k) (some o) r e w h = elim (Bool-cases (str_eq o k)) [
  | inl t ↦
      rw t (record { kept = raised-IsKept lock c x.chan r; key = rw (w, e, str_eq-same o k t) })
  | inr t ↦
      rw t (record {
        kept = record { flags = (h o refl).flags; limit = (h o refl).limit };
        key = rw w;
      })
]

-- A round ends as the lock wants it, if taking off the key does no harm to the flags and the limit.
round-IsLocked :
    (m : ℕ) (env : Env) (lock : Mlock) (c : Channel)
    → c.bouncy_modes ≡ false
    → ((o : Bytes)
        → c.key ≡ some o
        → IsKept lock c (take_key_off env (check_modes m env lock) o (raised env.now lock c)).chan)
    → IsLocked lock c (check_modes (suc m) env lock c).0
unfolding check_modes
round-IsLocked m env lock c b h =
    let x = raised env.now lock c in
    let r = raised-IsRaised env.now lock c in
    subst
      (λ z.
        IsLocked lock c
          (if z
            then (c, [])
            else send_fix (
                fix_off lock (
                  fix_key (take_key_off env (check_modes m env lock)) (lock_key lock.key) x.chan.key
                    x))).0)
      (sym b)
      (fix_off-IsLocked lock c
        (fix_key (take_key_off env (check_modes m env lock)) (lock_key lock.key) x.chan.key x)
        (fix_key-IsReady (take_key_off env (check_modes m env lock)) lock c x (lock_key lock.key)
          x.chan.key r refl refl (λ o e. h o (sym r.key ∙ e))))

fresh-IsLocked :
    (m : ℕ) (env : Env) (lock : Mlock) (c : Channel)
    → c.bouncy_modes ≡ false
    → c.key ≡ none
    → IsLocked lock c (check_modes (suc m) env lock c).0
fresh-IsLocked m env lock c b k = round-IsLocked m env lock c b (λ o e. absurd (cc))

pub run-minus_k :
    (env : Env) (c : Channel) (old : Bytes)
    → (run env (b'-' ∷ b'k' ∷ []) (record { chan = c; add = true; ac = 1; av = old ∷ [] })).chan
      ≡ record c { key = none }
unfolding run step flag_of other_mode
run-minus_k env c old = refl

nested-IsKept :
    (m : ℕ) (env : Env) (lock : Mlock) (c : Channel) (o : Bytes)
    → c.bouncy_modes ≡ false
    → IsKept lock c (take_key_off env (check_modes (suc m) env lock) o (raised env.now lock c)).chan
unfolding take_key_off
nested-IsKept m env lock c o b =
    let x = raised env.now lock c in
    let r = raised-IsRaised env.now lock c in
    let d : Channel = record x.chan { key = none } in
    let n : IsLocked lock d (check_modes (suc m) env lock d).0 =
      fresh-IsLocked m env lock d (r.calm ∙ b) refl in
    subst (λ e. IsKept lock c (check_modes (suc m) env lock e).0) (sym (run-minus_k env x.chan o))
      (record {
        flags = λ f. ground (arith, n.flags f, r.flags f);
        limit = ground (arith, n.limit, r.limit);
      })

-- check_modes leaves a channel that is not marked as bouncing with exactly the flags, the limit and
-- the key that its mode lock asks for: what is locked off is off, what is locked on is on, and all
-- else is as it was. Two rounds of the recursion through do_cmode are enough, whatever the channel.
pub check_modes-IsLocked :
    (m : ℕ) (env : Env) (lock : Mlock) (c : Channel)
    → c.bouncy_modes ≡ false
    → IsLocked lock c (check_modes (suc (suc m)) env lock c).0
check_modes-IsLocked m env lock c b =
    round-IsLocked (suc m) env lock c b (λ o e. nested-IsKept m env lock c o b)
