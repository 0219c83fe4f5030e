-- ===== src/Channel/Lock/Room.antt =====
-- `char newmodes[32]` of check_modes: the room that the letters take.
use oftc_blitzed.Base.{
  ℕ, zero, suc, ◌+◌, ◌≤◌, ◌≡◌, refl, ap, ◌==◌, ◌⊎◌, Bool, true, false, List, [], ◌∷◌, ◌++◌, arith,
  length, All, length-append, Option, none, some, Bytes, if◌then◌else◌, Bool-cases, inl, inr, not,
  ◌&&◌,
}
use oftc_blitzed.Text.{str_eq}
use oftc_blitzed.Channel.Defs.{Channel, Flag, Flags}
use oftc_blitzed.Channel.Modes.{Env, set_flag}
use oftc_blitzed.Channel.Lock.{
  Mlock, Command, order, turn, signed, lock_key, Fix, fix_limit, put_key, fix_key, has_key, fix_off,
  send_fix, count_change, begin, take_key_off, check_modes,
}

-- At most twelve letters behind each of the two signs.
abbrev pub HasRoom : Command → Type 0
HasRoom m = length m.letters ≤ 26

All-append : {A : Type 0} (P : A → Type 0) (xs ys : List A) → All P xs → All P ys → All P (xs ++ ys)
All-append P [] ys h k = k
All-append P (x ∷ xs) ys (p, h) k = (p, All-append P xs ys h k)

length-turn :
    (add : Bool) (l : List Flag) (modes mode : Flags) → length (turn add l modes mode).1 ≤ length l
unfolding turn
length-turn add [] modes mode = omega arith
length-turn add (f ∷ l) modes mode =
    ground (arith, length-turn add l modes (if modes f then set_flag f add mode else mode))

length-signed : (sign : ℕ) (s : Bytes) → length (signed sign s) ≤ length s + 1
length-signed sign [] = omega arith
length-signed sign (c ∷ s) = omega arith

begin-room : (lock : Mlock) (c : Channel) → length (begin lock c).letters ≤ 10
unfolding begin
begin-room lock c = length-turn true order (λ f. not (c.mode f) && lock.on f) c.mode

fix_limit-room : (lock : Mlock) (x : Fix) → length (fix_limit lock x).letters ≤ length x.letters + 1
unfolding fix_limit
fix_limit-room lock x = ground (arith, length-append x.letters (b'l' ∷ []))

put_key-room : (k : Bytes) (x : Fix) → length (put_key k x).letters ≤ length x.letters + 1
put_key-room k x = omega (arith, length-append x.letters (b'k' ∷ []))

length-optional : (b : Bool) (c : ℕ) → length (if b then c ∷ [] else []) ≤ 1
length-optional b c = ground arith

length-both :
    (p s k l : Bytes)
    → length s ≤ 10
    → length k ≤ 1
    → length l ≤ 1
    → length (signed b'+' p ++ signed b'-' (s ++ k ++ l)) ≤ length p + 14
length-both p s k l hs hk hl = omega (
  arith,
  hs,
  hk,
  hl,
  length-signed b'+' p,
  length-signed b'-' (s ++ k ++ l),
  length-append (signed b'+' p) (signed b'-' (s ++ k ++ l)),
  length-append (s ++ k) l,
  length-append s k,
)

fix_off-room : (lock : Mlock) (x : Fix) → length (fix_off lock x).letters ≤ length x.letters + 14
unfolding fix_off
fix_off-room lock x =
    let modes : Flags = λ f. x.chan.mode f && lock.off f in
    let key_off = has_key x.chan.key && lock.off_key in
    let limit_off = not (x.chan.limit == 0) && lock.off_limit in
    length-both x.letters (turn false order modes x.chan.mode).1 (if key_off then b'k' ∷ [] else [])
      (if limit_off then b'l' ∷ [] else []) (length-turn false order modes x.chan.mode)
      (length-optional key_off b'k') (length-optional limit_off b'l')

-- The letters that are under way, and what has been sent, are within their bounds.
record IsRoomy (x : Fix) : Type 0 where
  letters : length x.letters ≤ 12
  sent : All HasRoom x.sent

fix_key-IsRoomy :
    (replace : Bytes → Fix → Fix) (want old : Option Bytes) (x : Fix)
    → length x.letters ≤ 11
    → All HasRoom x.sent
    → ((o : Bytes) → ((replace o x).letters ≡ x.letters) × All HasRoom (replace o x).sent)
    → IsRoomy (fix_key replace want old x)
unfolding fix_key
fix_key-IsRoomy replace none old x l s h = record { letters = omega (arith, l); sent = s }
fix_key-IsRoomy replace (some k) none x l s h = record {
  letters = omega (arith, l, put_key-room k x);
  sent = s;
}
fix_key-IsRoomy replace (some k) (some o) x l s h = elim (Bool-cases (str_eq o k)) [
  | inl e ↦ rw e (record { letters = omega (arith, l); sent = s })
  | inr e ↦ rw e (record {
    letters = omega (arith, l, put_key-room k (replace o x), ap length (h o).0);
    sent = (h o).1;
  })
]

take_key_off-sent :
    (env : Env) (check : Channel → Channel × List Command) (o : Bytes) (x : Fix)
    → ((c : Channel) → All HasRoom (check c).1)
    → All HasRoom x.sent
    → All HasRoom (take_key_off env check o x).sent
unfolding take_key_off
take_key_off-sent env check o x h s = All-append HasRoom x.sent _ s ((omega arith), h _)

take_key_off-letters :
    (env : Env) (check : Channel → Channel × List Command) (o : Bytes) (x : Fix)
    → (take_key_off env check o x).letters ≡ x.letters
unfolding take_key_off
take_key_off-letters env check o x = refl

raised-sent : (lock : Mlock) (c : Channel) → All HasRoom (fix_limit lock (begin lock c)).sent
unfolding fix_limit begin
raised-sent lock c = ground arith

fix_off-sent : (lock : Mlock) (x : Fix) → All HasRoom x.sent → All HasRoom (fix_off lock x).sent
unfolding fix_off
fix_off-sent lock x s = s

Bytes-cases : (s : Bytes) → (s ≡ []) ⊎ ((c : ℕ) × (t : Bytes) × (s ≡ c ∷ t))
Bytes-cases [] = inl refl
Bytes-cases (c ∷ t) = inr (c, t, refl)

send_fix-HasRoom :
    (x : Fix) → length x.letters ≤ 26 → All HasRoom x.sent → All HasRoom (send_fix x).1
unfolding send_fix
send_fix-HasRoom x l s = elim (Bytes-cases x.letters) [
  | inl e ↦ rw e s
  | inr (c, t, e) ↦ rw e (All-append HasRoom x.sent _ s (omega (arith, l, ap length e), tt))
]

either : {A : Type 0} (P : A → Type 0) (b : Bool) (x y : A) → P x → P y → P (if b then x else y)
either P true x y p q = p
either P false x y p q = q

-- No MODE command that check_modes sends has more than 26 letters and signs, whatever the lock and
-- the channel are and however deep the calls go, so that it fits into the 32 bytes of newmodes.
pub check_modes-HasRoom :
    (m : ℕ) (env : Env) (lock : Mlock) (c : Channel) → All HasRoom (check_modes m env lock c).1
unfolding check_modes
check_modes-HasRoom zero env lock c = tt
check_modes-HasRoom (suc m) env lock c =
    let b = begin lock (count_change env.now c) in
    let x = fix_limit lock b in
    let replace = take_key_off env (check_modes m env lock) in
    let y = fix_key replace (lock_key lock.key) x.chan.key x in
    let s : All HasRoom x.sent = raised-sent lock (count_change env.now c) in
    let r : IsRoomy y =
      fix_key-IsRoomy replace (lock_key lock.key) x.chan.key x
        (omega (arith, begin-room lock (count_change env.now c), fix_limit-room lock b)) s
        (λ o. (
          take_key_off-letters env (check_modes m env lock) o x,
          take_key_off-sent env (check_modes m env lock) o x (check_modes-HasRoom m env lock) s,
        )) in
    let e : All HasRoom (send_fix (fix_off lock y)).1 =
      send_fix-HasRoom (fix_off lock y) (omega (arith, r.letters, fix_off-room lock y))
        (fix_off-sent lock y r.sent) in
    either (λ z. All HasRoom z.1) c.bouncy_modes (c, []) (send_fix (fix_off lock y)) tt e
