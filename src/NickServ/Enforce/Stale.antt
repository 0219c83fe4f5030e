-- ===== src/NickServ/Enforce/Stale.antt =====
-- What a user who leaves a nick leaves behind.
use oftc_blitzed.Base.{
  ℕ, ◌≤◌, ◌≡◌, ◌≢◌, refl, ◌⊎◌, true, false, ◌∷◌, some, arith, ◌==◌, Bool-cases, inl, inr,
}
use oftc_blitzed.Cache.{Bits}
use oftc_blitzed.NickServ.Enforce.{
  ns_identified, ns_guested, ns_kill_held, without_temporary, Row, User, enforcer, Net, Env,
  row_status, has_bit, change_status, add_ns_timeout, del_ns_timeout, is_guested, cancel_user,
  nick_identified,
}
use oftc_blitzed.NickServ.Enforce.Status.{IsClear, equal_self, change_status-clears}

-- A user leaves a nick that is not guested: no temporary bit of the status is left, neither in the
-- table nor in the cache. A user leaves a nick that is guested: the table has NS_KILL_HELD and no
-- other temporary bit, and the enforcer takes the nick.
pub cancel_user-cases :
    (env : Env) (now : ℕ) (u : User) (b : ℕ) (r : Row) (st : Net)
    → u.real_id ≢ 0
    → 8 ≤ b
    → b ≤ 15
    → st.table u.real_id ≡ some r
    → (is_guested u.real_id st ≡ false) × IsClear b u.real_id (cancel_user env now u st)
      ⊎ (is_guested u.real_id st ≡ true)
        × ((cancel_user env now u st).sent ≡ enforcer u.nick ∷ st.sent)
        × (has_bit b (row_status ((cancel_user env now u st).table u.real_id))
            ≡ (b == ns_kill_held))
unfolding cancel_user del_ns_timeout add_ns_timeout change_status
cancel_user-cases env now u b r st o l h e =
    let real : u.real_id == 0 ≡ false = ground (arith, o) in
    elim (Bool-cases (is_guested u.real_id st)) [
      | inr g ↦
          let c =
            change_status-clears b u.real_id without_temporary st (λ s. ground (arith, l, h)) in
          inl
            (g, rw (cancel_user, real, g) (record { in_table = c.in_table; in_cache = c.in_cache }))
      | inl g ↦ inr (
        g,
        rw (cancel_user, real, g) refl,
        rw (cancel_user, real, g, equal_self u.real_id, e) (ground (arith, l, h)),
      )
    ]

-- A user leaves a guested nick for which the cache has an entry. The temporary bits are cleared in
-- the table but not in the cache: a nick that the cache says is identified still is.
pub cancel_user-stale :
    (env : Env) (now : ℕ) (u : User) (r : Row) (s : Bits) (st : Net)
    → u.real_id ≢ 0
    → st.table u.real_id ≡ some r
    → r.status ns_guested ≡ true
    → st.cached u.real_id ≡ some s
    → s ns_identified ≡ true
    → (has_bit ns_identified (row_status ((cancel_user env now u st).table u.real_id)) ≡ false)
      × (nick_identified u (cancel_user env now u st) ≡ true)
unfolding cancel_user del_ns_timeout add_ns_timeout change_status
cancel_user-stale env now u r s st o e g c i =
    let real : u.real_id == 0 ≡ false = ground (arith, o) in
    rw (cancel_user, real, e, g, equal_self u.real_id, e, c) (refl, i)
