-- ===== src/NickServ/Enforce/Identify.antt =====
-- IDENTIFY: the attempts, the kill after too many of them, and who is identified.
use oftc_blitzed.Base.{
  ℕ, ◌≡◌, ◌≢◌, refl, sym, subst, ◌<◌, ◌∙◌, Bool, true, false, not, ◌&&◌, ◌||◌, Option, none, some,
  arith, length, ◌==◌, if◌then◌else◌, leb, Bytes, Bool-cases, inl, inr,
}
use oftc_blitzed.NickServ.Enforce.{
  ns_identified, ns_guested, password_incorrect, kill, finduser, ns_recognized, Row, User, Message,
  Net, Env, send, get_nick_status, flag, nick_identified, cache_read, svscloak, identify_succeeded,
  svsmode_r, beg_set_email, not_ircop, x_suspended, check_memos,
}
use oftc_blitzed.Actions.{Attempts, Config, bad_password}
use oftc_blitzed.NickServ.Enforce.Stale.{cancel_user-cases}
use oftc_blitzed.NickServ.Enforce.Commands.{
  do_identify, identify, mysql_update_last_seen, when, send_cloak, quit_row, mysql_quit_user,
  delete_user, do_kill, kill_user, fail,
}
use oftc_blitzed.NickServ.Enforce.Status.{IsClear, equal_self, IsClear-get_nick_status}

when-status :
    (b id : ℕ) (t : Bool) (m : Message) (st : Net)
    → get_nick_status b id (when t m st) ≡ get_nick_status b id st
when-status b id true m st = refl
when-status b id false m st = refl

send_cloak-status :
    (b id : ℕ) (t : Bool) (u : User) (o : Option Row) (st : Net)
    → get_nick_status b id (if t then send_cloak u o st else st) ≡ get_nick_status b id st
send_cloak-status b id false u o st = refl
send_cloak-status b id true u none st = refl
send_cloak-status b id true u (some r) st =
    when-status b id (not (length r.cloak_string == 0)) (svscloak u.nick r.cloak_string) st

identify-status :
    (now : ℕ) (u : User) (r : Row) (st : Net)
    → st.table u.real_id ≡ some r
    → get_nick_status ns_identified u.real_id (identify now u st) ≡ true
unfolding identify mysql_update_last_seen
identify-status now u r st e =
    let known = cache_read u.real_id (mysql_update_last_seen now u ns_identified st) in
    let row = st.table u.real_id in
    let fresh = not (get_nick_status ns_recognized u.real_id known) in
    let told = send identify_succeeded (send (svsmode_r u.nick) known) in
    let not_oper = u.oper && not (flag (λ (x : Row). x.ircop) (st.table u.nick_id)) in
    let short = flag (λ (x : Row). leb (length x.email) 1) row in
    let answered = when short beg_set_email (when not_oper not_ircop told) in
    let known_status : get_nick_status ns_identified u.real_id known ≡ true =
      rw (equal_self u.real_id, e) refl in
    send_cloak-status ns_identified u.real_id (fresh && flag (λ (x : Row). x.cloak) row) u row
      (when fresh check_memos answered)
    ∙ (when-status ns_identified u.real_id fresh check_memos answered
        ∙ (when-status ns_identified u.real_id short beg_set_email (when not_oper not_ircop told)
            ∙ (when-status ns_identified u.real_id not_oper not_ircop told ∙ known_status)))

delete_user-IsClear :
    (env : Env) (now : ℕ) (u : User) (r : Row) (st : Net)
    → u.real_id ≢ 0
    → st.table u.real_id ≡ some r
    → r.status ns_guested ≡ false
    → IsClear ns_identified u.real_id (delete_user env now u st)
unfolding delete_user
delete_user-IsClear env now u r st o e g =
    elim (cancel_user-cases env now u ns_identified r st o (omega arith) (omega arith) e) [
      | inl (h, c) ↦ record { in_table = c.in_table; in_cache = c.in_cache }
      | inr (h, _, _) ↦ absurd (cc (sym g ∙ rw e at h))
    ]

-- A user who is on the network under his nick, which has a row and is not guested.
pub record IsThere (u : User) (r : Row) (st : Net) : Type 0 where
  pub real : u.real_id ≢ 0
  pub has_row : st.table u.real_id ≡ some r
  pub unguested : r.status ns_guested ≡ false
  pub named : 0 < length u.nick
  pub online : finduser u.nick st.online ≡ some u

kill_user-IsClear :
    (env : Env) (now : ℕ) (u : User) (r : Row) (st : Net)
    → IsThere u r st
    → IsClear ns_identified u.real_id (kill_user env now u.nick st)
unfolding kill_user do_kill
kill_user-IsClear env now u r st h =
    let named : length u.nick == 0 ≡ false = ground (arith, h.named) in
    let st' = send (kill u.nick) st in
    let quit = if u.nick_id == 0 then st' else mysql_quit_user now u st' in
    let result : kill_user env now u.nick st ≡ delete_user env now u quit =
      rw (kill_user, named, do_kill, h.online) refl in
    subst (IsClear ns_identified u.real_id) (sym result) (elim (Bool-cases (u.nick_id == 0)) [
      | inl k ↦ rw k (delete_user-IsClear env now u r st' h.real h.has_row h.unguested)
      | inr k ↦ rw k (
          delete_user-IsClear env now u (quit_row now r) (mysql_quit_user now u st') h.real
            (rw (equal_self u.real_id, h.has_row) refl) h.unguested)
    ])

fail-identified :
    (env : Env) (cfg : Config) (now : ℕ) (u : User) (r : Row) (a : Attempts) (st : Net)
    → IsThere u r st
    → nick_identified u (fail env cfg now u a st).1
      ≡ (nick_identified u st && not (bad_password cfg now a).1)
unfolding fail
fail-identified env cfg now u r a st h = elim (Bool-cases (bad_password cfg now a).1) [
  | inl k ↦
      let clear =
        IsClear-get_nick_status ns_identified u.real_id (kill_user env now u.nick st)
          (kill_user-IsClear env now u r st h) in
      rw k (ground (arith, clear))
  | inr k ↦ rw k (ground arith)
]

-- IDENTIFY by a user who is on the network under a nick that has a row and is not guested. His
-- attempts are as bad_password leaves them when the nick is not suspended and the password is wrong,
-- and as before in all other cases. Afterwards he is identified: as before if the nick is suspended;
-- if not, and the password is right, always; and if it is wrong, exactly when he was before and the
-- attempt did not get him killed.
pub do_identify_iff :
    (env : Env) (cfg : Config) (now : ℕ) (u : User) (pass : Bytes) (r : Row) (a : Attempts)
    (st : Net)
    → IsThere u r st
    → ((do_identify env cfg now u (some pass) a st).0 ≡ (
        if r.suspended || env.check_nick_password pass u.real_id
        then a
        else (bad_password cfg now a).0))
      × (nick_identified u (do_identify env cfg now u (some pass) a st).1 ≡ (
          if r.suspended
          then nick_identified u st
          else if env.check_nick_password pass u.real_id
          then true
          else nick_identified u st && not (bad_password cfg now a).1))
unfolding do_identify
do_identify_iff env cfg now u pass r a st h =
    let real : u.real_id == 0 ≡ false = ground (arith, h.real) in
    let before = nick_identified u st in
    let right = env.check_nick_password pass u.real_id in
    let tried = bad_password cfg now a in
    let IsResult : Attempts × Net → Type 0 = λ p.
      (p.0 ≡ (if r.suspended || right then a else tried.0))
      × (nick_identified u p.1
          ≡ (if r.suspended then before else if right then true else before && not tried.1)) in
    elim (Bool-cases r.suspended) [
      | inl s ↦
          let result : do_identify env cfg now u (some pass) a st ≡ (a, send x_suspended st) =
            rw (do_identify, real, h.has_row, s) refl in
          subst IsResult (sym result) (rw s (refl, refl))
      | inr s ↦ elim (Bool-cases right) [
        | inl b ↦
            let result : do_identify env cfg now u (some pass) a st ≡ (a, identify now u st) =
              rw (do_identify, real, h.has_row, s, b) refl in
            let known : nick_identified u (identify now u st) ≡ true =
              ground (arith, real, identify-status now u r st h.has_row) in
            subst IsResult (sym result) (rw (s, b) (refl, known))
        | inr b ↦
            let st' = send password_incorrect st in
            let result : do_identify env cfg now u (some pass) a st ≡ fail env cfg now u a st' =
              rw (do_identify, real, h.has_row, s, b) refl in
            let there : IsThere u r st' = record {
              real = h.real;
              has_row = h.has_row;
              unguested = h.unguested;
              named = h.named;
              online = h.online;
            } in
            subst IsResult (sym result)
              (rw (s, b) (refl, fail-identified env cfg now u r a st' there))
      ]
    ]
