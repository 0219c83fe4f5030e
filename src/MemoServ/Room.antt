-- ===== src/MemoServ/Room.antt =====
-- How many memos somebody can get.
use oftc_blitzed.Base.{
  ℕ, ◌+◌, ◌≤◌, ◌≡◌, refl, sym, subst, ◌⊎◌, false, not, ◌&&◌, some, arith, ◌==◌, ltb, Bytes,
  Bool-cases, inl, inr,
}
use oftc_blitzed.MemoServ.{
  MemoInfo, Db, User, Env, Reply, sent, found, count_memos, get_memoinfo_from_owner, is_chan,
  is_max, is_no_memos, receiver, send_memo, send_to, do_send,
}
use oftc_blitzed.MemoServ.Numbers.{send_memo-count}

-- A memo arrives, and the receiver has not more than the limit.
abbrev pub Arrives : Env → ℕ → Bytes → ℕ → User × Db × Reply → Db → Type 0
Arrives env now name max r db =
    (r.2 ≡ sent)
    × (count_memos name r.1.memos ≡ count_memos name db.memos + 1)
    × (count_memos name r.1.memos ≤ max)
    × (r.0.lastmemosend ≡ now)

send_to-Arrives :
    (env : Env) (now : ℕ) (u : User) (name text : Bytes) (db : Db) (i : MemoInfo) (max : ℕ)
    → u.services_admin ≡ false
    → i.max ≡ some max
    → ((send_to env now u name text db (found i)).1 ≡ db)
      ⊎ Arrives env now name max (send_to env now u name text db (found i)) db
unfolding send_to
send_to-Arrives env now u name text db i max a e =
    let n = count_memos name db.memos in
    let stored = send_memo env now name u.nick text db in
    elim (Bool-cases
      (ltb 0 env.send_delay && ltb now (u.lastmemosend + env.send_delay) && not u.services_admin)) [
        | inl h ↦ inl (rw (send_to, h) refl)
        | inr h ↦ elim (Bool-cases (is_no_memos i.max && not u.services_admin)) [
          | inl k ↦ inl (rw (send_to, h, k) refl)
          | inr k ↦ elim (Bool-cases (is_max i.max n && not u.services_admin)) [
            | inl m ↦ inl (rw (send_to, h, k, m) refl)
            | inr m ↦
                elim (Bool-cases (
                  is_chan name
                  && not (env.findchan name == 0)
                  && not (env.may_send (env.findchan name)))) [
                    | inl q ↦ inl (rw (send_to, h, k, m, q) refl)
                    | inr q ↦
                        let count = send_memo-count env now name u.nick text db in
                        let some_max : (max == 0) && not false ≡ false = rw (e, a) at k in
                        let room : is_max (some max) n && not false ≡ false = rw (e, a) at m in
                        let fits : n + 1 ≤ max = ground (arith, some_max, room) in
                        inr (
                          rw (send_to, h, k, m, q)
                            (refl, count, subst (λ c. c ≤ max) (sym count) fits, refl))
                  ]
          ]
        ]
      ]

-- Somebody who is no Services admin sends a memo to a receiver with a limit. Either the memos stay as
-- they are, or the receiver has one memo more, not more than the limit allows, and the time is noted.
pub do_send-Arrives :
    (env : Env) (now : ℕ) (u : User) (name text : Bytes) (db : Db) (i : MemoInfo) (max : ℕ)
    → u.services_admin ≡ false
    → get_memoinfo_from_owner env (receiver env name) db.infos ≡ found i
    → i.max ≡ some max
    → ((do_send env now u (some (name, text)) db).1 ≡ db)
      ⊎ Arrives env now (receiver env name) max (do_send env now u (some (name, text)) db) db
unfolding do_send
do_send-Arrives env now u name text db i max a f e = elim (Bool-cases u.recognized) [
  | inr h ↦ inl (rw (do_send, h) refl)
  | inl h ↦
      let to = receiver env name in
      let same : do_send env now u (some (name, text)) db ≡ send_to env now u to text db (found i) =
        simp (do_send, h, f) in
      subst (λ r. (r.1 ≡ db) ⊎ Arrives env now to max r db) (sym same)
        (send_to-Arrives env now u to text db i max a e)
]
