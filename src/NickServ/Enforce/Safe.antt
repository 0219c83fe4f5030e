-- ===== src/NickServ/Enforce/Safe.antt =====
-- What validate_user leaves of the status of a nick.
use oftc_blitzed.Base.{
  ℕ, ◌≡◌, ◌≢◌, refl, ◌∙◌, Bool, true, false, not, ◌&&◌, Option, none, some, arith, ◌==◌,
  if◌then◌else◌, Bool-cases, inl, inr,
}
use oftc_blitzed.Text.{stricmp, is_zero}
use oftc_blitzed.Cache.{Bits}
use oftc_blitzed.NickServ.Enforce.{
  ns_identified, ns_on_access, ns_recognized, with_bit, without_temporary, Row, User, Kind,
  to_collide, Message, Net, Env, send, map_row, row_status, seen, map_bits, has_bit,
  add_nick_status, remove_temporary, add_ns_timeout, flag, usermask, is_recovered, is_on,
  if_enforced, recognize, validate_free, may_not_use, validate_user, is_secure, is_registered,
  forcenickchange_in_20_seconds, forcenickchange_in_1_minute,
}
use oftc_blitzed.NickServ.Enforce.Status.{
  IsClear, equal_self, change_status-clears, change_status-keeps,
}

module _ (b : ℕ) (g : Row → Row) (h : (r : Row) → (g r).status b ≡ r.status b) where
  map_row-clear :
      (o : Option Row)
      → has_bit b (row_status o) ≡ false
      → has_bit b (row_status (map_row g o)) ≡ false
  map_row-clear none e = refl
  map_row-clear (some r) e = h r ∙ e

  seen-clear :
      (f : Bits → Bits) (c : Option Bits) (o : Option Row)
      → ((s : Bits) → f s b ≡ s b)
      → has_bit b c ≡ false
      → has_bit b (row_status o) ≡ false
      → has_bit b (map_bits f (seen c (map_row g o))) ≡ false
  seen-clear f (some s) o k e q = k s ∙ e
  seen-clear f none none k e q = refl
  seen-clear f none (some r) k e q = k (g r).status ∙ (h r ∙ q)

recognize-IsClear :
    (now : ℕ) (u : User) (st : Net)
    → IsClear ns_identified u.real_id st
    → IsClear ns_identified u.real_id (recognize now u st)
recognize-IsClear now u st c =
    let g : Row → Row = λ r. record r {
      status = with_bit ns_recognized r.status;
      last_seen = now;
      last_usermask = usermask u;
    } in
    record {
      in_table =
          rw (equal_self u.real_id)
            (map_row-clear ns_identified g (λ r. refl) (st.table u.real_id) c.in_table);
      in_cache = rw (equal_self u.real_id) (
          seen-clear ns_identified g (λ r. refl) (with_bit ns_recognized) (st.cached u.real_id)
            (st.table u.real_id) (λ s. refl) c.in_cache c.in_table);
    }

if-IsClear :
    (b id : ℕ) (t : Bool) (x y : Net)
    → IsClear b id x
    → IsClear b id y
    → IsClear b id (if t then x else y)
if-IsClear b id true x y h k = h
if-IsClear b id false x y h k = k

add_ns_timeout-IsClear :
    (b id now i delay : ℕ) (k : Kind) (st : Net)
    → IsClear b id st
    → IsClear b id (add_ns_timeout now i k delay st)
unfolding add_ns_timeout
add_ns_timeout-IsClear b id now i delay k st c = record {
  in_table = c.in_table;
  in_cache = c.in_cache;
}

send-IsClear : (b id : ℕ) (m : Message) (st : Net) → IsClear b id st → IsClear b id (send m st)
send-IsClear b id m st c = record { in_table = c.in_table; in_cache = c.in_cache }

if_enforced-IsClear :
    (env : Env) (now : ℕ) (u : User) (master : Option Row) (st : Net)
    → IsClear ns_identified u.real_id st
    → IsClear ns_identified u.real_id (if_enforced env now u master st)
if_enforced-IsClear env now u master st c =
    let quick =
      add_ns_timeout now u.real_id to_collide 20 (send forcenickchange_in_20_seconds st) in
    let slow = add_ns_timeout now u.real_id to_collide 60 (send forcenickchange_in_1_minute st) in
    let is_quick = flag (λ r. r.enforcequick) master in
    if-IsClear ns_identified u.real_id (flag (λ r. r.enforce) master && not (is_on env u))
      (if is_quick then quick else slow) st
      (if-IsClear ns_identified u.real_id is_quick quick slow
        (add_ns_timeout-IsClear ns_identified u.real_id now u.real_id 20 to_collide
          (send forcenickchange_in_20_seconds st)
          (send-IsClear ns_identified u.real_id forcenickchange_in_20_seconds st c))
        (add_ns_timeout-IsClear ns_identified u.real_id now u.real_id 60 to_collide
          (send forcenickchange_in_1_minute st)
          (send-IsClear ns_identified u.real_id forcenickchange_in_1_minute st c)))
      c

validate_free-IsClear :
    (env : Env) (now : ℕ) (u : User) (master : Option Row) (st : Net)
    → IsClear ns_identified u.real_id st
    → is_recovered env u st ≡ false
    → IsClear ns_identified u.real_id (validate_free env now u master st).1
unfolding validate_free
validate_free-IsClear env now u master st c h =
    let seen_on = if is_on env u then add_nick_status ns_on_access u.real_id st else st in
    let on : IsClear ns_identified u.real_id seen_on =
      if-IsClear ns_identified u.real_id (is_on env u) (add_nick_status ns_on_access u.real_id st)
        st (change_status-keeps ns_identified u.real_id (with_bit ns_on_access) st (λ s. refl) c)
        c in
    elim (Bool-cases (not (flag (λ r. r.secure) master) && is_on env u)) [
      | inl k ↦ rw (validate_free, h, k) (recognize-IsClear now u seen_on on)
      | inr k ↦
          let m = if flag (λ r. r.secure) master then is_secure else is_registered in
          rw (validate_free, h, k)
            (if_enforced-IsClear env now u master (send m seen_on)
              (send-IsClear ns_identified u.real_id m seen_on on))
    ]

no_stamp :
    (u : User) (split : Bool) (o : Option Row)
    → u.services_stamp ≡ 0
    → (split
        && flag
            (λ (r : Row).
              not (r.id_stamp == 0)
              && r.id_stamp == u.services_stamp
              && is_zero (stricmp r.last_usermask (usermask u)))
            o)
      ≡ false
no_stamp u split none e = ground arith
no_stamp u split (some r) e = ground (arith, e)

pub not_recovered :
    (env : Env) (u : User) (st : Net) → u.services_stamp ≡ 0 → is_recovered env u st ≡ false
not_recovered env u st e = no_stamp u (not env.no_split_recovery) (st.table u.real_id) e

-- A user whose services stamp is 0, as do_nick leaves it, takes a nick that is registered, and neither
-- forbidden nor suspended. Whatever bits an earlier user left in the table or in the cache, afterwards neither says
-- that the nick is identified.
pub validate_user-IsClear :
    (env : Env) (now : ℕ) (u : User) (st : Net)
    → u.real_id ≢ 0
    → u.services_stamp ≡ 0
    → may_not_use u st ≡ false
    → IsClear ns_identified u.real_id (validate_user env now u st).1
unfolding validate_user
validate_user-IsClear env now u st o z m =
    let real : u.real_id == 0 ≡ false = ground (arith, o) in
    let st' = remove_temporary u.real_id st in
    let clear = change_status-clears ns_identified u.real_id without_temporary st (λ s. refl) in
    rw (validate_user, real, m)
      (validate_free-IsClear env now u (st.table u.nick_id) st' clear (not_recovered env u st' z))
