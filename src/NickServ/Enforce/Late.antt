-- ===== src/NickServ/Enforce/Late.antt =====
-- A user who does not identify in time.
use oftc_blitzed.Base.{
  ℕ, ◌+◌, ◌≤◌, ◌≡◌, ◌≢◌, refl, sym, ap, subst, ◌∙◌, Bool, true, false, not, ◌&&◌, List, ◌∷◌, Option,
  none, some, arith, ◌==◌, if◌then◌else◌, Bool-cases, inl, inr,
}
use oftc_blitzed.Cache.{Bits}
use oftc_blitzed.NickServ.Enforce.{
  ns_identified, Row, User, Kind, to_collide, Timer, svsnick, forcenickchange_now, Net, Env, send,
  seen, look, has_bit, get_nick_status, change_status, remove_temporary, add_ns_timeout,
  rem_ns_timeout, finduser, is_on, if_enforced, validate_free, may_not_use, validate_user,
  is_guested, collide_nick, is_later, timeout_collide, is_secure, is_registered,
}
use oftc_blitzed.NickServ.Enforce.Status.{equal_self}
use oftc_blitzed.NickServ.Enforce.Safe.{not_recovered}

-- The timer that validate_user sets.
abbrev pub IsWarning : ℕ → User → Timer → Type 0
IsWarning now u t =
    (t.nick_id ≡ u.real_id)
    × (t.kind ≡ to_collide)
    × (t.settime ≡ now)
    × (now + 20 ≤ t.timeout)
    × (t.timeout ≤ now + 60)

if_enforced-timer :
    (env : Env) (now : ℕ) (u : User) (m : Row) (st : Net)
    → m.enforce ≡ true
    → is_on env u ≡ false
    → (t : Timer) × ((if_enforced env now u (some m) st).timeouts ≡ t ∷ st.timeouts)
      × IsWarning now u t
unfolding add_ns_timeout
if_enforced-timer env now u m st e o = elim (Bool-cases m.enforcequick) [
  | inl q ↦ rw (e, o, q) (_, refl, (refl, refl, refl, omega arith, omega arith))
  | inr q ↦ rw (e, o, q) (_, refl, (refl, refl, refl, omega arith, omega arith))
]

-- A user takes a nick that is enforced, neither forbidden nor suspended, from outside its access
-- list, and has no services stamp. The flags are those of the master of the nick.
pub record IsEnforced (u : User) (env : Env) (st : Net) : Type 0 where
  pub real : u.real_id ≢ 0
  pub free : may_not_use u st ≡ false
  pub stranger : is_on env u ≡ false
  pub no_stamp : u.services_stamp ≡ 0
  pub master : Row
  pub has_master : st.table u.nick_id ≡ some master
  pub enforced : master.enforce ≡ true

validate_free-timer :
    (env : Env) (now : ℕ) (u : User) (m : Row) (st : Net)
    → u.services_stamp ≡ 0
    → is_on env u ≡ false
    → m.enforce ≡ true
    → ((validate_free env now u (some m) st).0 ≡ false)
      × ((t : Timer) × ((validate_free env now u (some m) st).1.timeouts ≡ t ∷ st.timeouts)
          × IsWarning now u t)
unfolding validate_free
validate_free-timer env now u m st e o f =
    let lost = not_recovered env u st e in
    let k = if m.secure then is_secure else is_registered in
    let away : (not m.secure && is_on env u) ≡ false = ground (arith, o) in
    let result : validate_free env now u (some m) st
        ≡ (false, if_enforced env now u (some m) (send k st)) =
      rw (validate_free, lost, away, o) refl in
    subst
      (λ (p : Bool × Net).
        (p.0 ≡ false) × ((t : Timer) × (p.1.timeouts ≡ t ∷ st.timeouts) × IsWarning now u t))
      (sym result) (refl, if_enforced-timer env now u m (send k st) f o)

validate_user-timer :
    (env : Env) (now : ℕ) (u : User) (st : Net)
    → IsEnforced u env st
    → ((validate_user env now u st).0 ≡ false)
      × ((t : Timer) × ((validate_user env now u st).1.timeouts ≡ t ∷ st.timeouts)
          × IsWarning now u t)
unfolding validate_user change_status
validate_user-timer env now u st h =
    let real : u.real_id == 0 ≡ false = ground (arith, h.real) in
    rw (validate_user, real, h.free, h.has_master)
      (validate_free-timer env now u h.master (remove_temporary u.real_id st) h.no_stamp h.stranger
        h.enforced)

seen-seen : (c : Option Bits) (o : Option Row) → seen (seen c o) o ≡ seen c o
seen-seen none none = refl
seen-seen none (some r) = refl
seen-seen (some s) o = refl

look-status :
    (b id : ℕ) (k : Kind) (st : Net)
    → get_nick_status b id (look id (rem_ns_timeout id k st)) ≡ get_nick_status b id st
unfolding rem_ns_timeout
look-status b id k st = rw (equal_self id) (ap (has_bit b) (seen-seen (st.cached id) (st.table id)))

timeout_collide-guests :
    (t : Timer) (r : Row) (v : User) (st : Net)
    → get_nick_status ns_identified t.nick_id st ≡ false
    → st.table t.nick_id ≡ some r
    → finduser r.nick st.online ≡ some v
    → v.my_signon ≤ t.settime
    → (st' : Net) × (timeout_collide t st ≡ some st')
      × (st'.sent ≡ svsnick r.nick st.counter ∷ forcenickchange_now st.counter ∷ st.sent)
      × (is_guested t.nick_id st' ≡ true)
unfolding timeout_collide rem_ns_timeout collide_nick change_status
timeout_collide-guests t r v st i e f l =
    let st' = look t.nick_id (rem_ns_timeout t.nick_id to_collide st) in
    let not_yet : get_nick_status ns_identified t.nick_id st' ≡ false =
      look-status ns_identified t.nick_id to_collide st ∙ i in
    let late : is_later t.settime (some v) ≡ false = ground (arith, l) in
    let result : timeout_collide t st ≡ some (collide_nick t.nick_id true r.nick st') =
      rw (timeout_collide, not_yet, e, f, late) refl in
    (collide_nick t.nick_id true r.nick st', result, refl, rw (equal_self t.nick_id, e) refl)

-- A user without a services stamp takes an enforced nick from outside its access list. The timer that
-- validate_user puts in front goes off within 60 seconds. If the nick is still registered by then,
-- is not identified, and is on the network since no later than the timer was set, the user is told
-- to change his nick, is sent SVSNICK, and the nick is marked as guested.
pub validate_user-svsnick :
    (env : Env) (now : ℕ) (u : User) (st : Net)
    → IsEnforced u env st
    → (t : Timer) (l : List Timer) → (validate_user env now u st).1.timeouts ≡ t ∷ l
    → (r : Row) (v : User) (later : Net) → get_nick_status ns_identified u.real_id later ≡ false
    → later.table u.real_id ≡ some r
    → finduser r.nick later.online ≡ some v
    → v.my_signon ≤ now
    → (t.timeout ≤ now + 60)
      × ((st' : Net) × (timeout_collide t later ≡ some st')
          × (st'.sent
              ≡ svsnick r.nick later.counter ∷ forcenickchange_now later.counter ∷ later.sent)
          × (is_guested u.real_id st' ≡ true))
validate_user-svsnick env now u st h t l e r v later i f g k =
    let (s, q, w) = (validate_user-timer env now u st h).1 in
    let same : s ≡ t = same_head s t st.timeouts l (sym q ∙ e) in
    let (id, _, set, _, soon) = subst (IsWarning now u) same w in
    let (st', a, b, c) =
      timeout_collide-guests t r v later
        (subst (λ j. get_nick_status ns_identified j later ≡ false) (sym id) i)
        (subst (λ j. later.table j ≡ some r) (sym id) f) g
        (subst (λ n. v.my_signon ≤ n) (sym set) k) in
    (soon, (st', a, b, subst (λ j. is_guested j st' ≡ true) id c))
  where
    same_head : (a b : Timer) (x y : List Timer) → a ∷ x ≡ b ∷ y → a ≡ b
    same_head a b x y p = cc
