-- ===== src/Akill/Command/Permanent.antt =====
-- AKILL ADD with an expiry of `+0`.
use oftc_blitzed.Base.{
  ℕ, ◌+◌, ◌-◌, ◌<◌, ◌≤◌, ◌≡◌, refl, true, false, List, [], ◌∷◌, ◌++◌, some, arith, if◌then◌else◌,
  leb, ltb, length, Bytes, codes,
}
use oftc_blitzed.Text.{strlower, stricmp, is_zero}
use oftc_blitzed.Users.Mask.{User, has, strtok, count_mask_matches}
use oftc_blitzed.Users.Mask.Match.{IsToken, IsHost, strtok-middle, strtok_rest-IsHost}
use oftc_blitzed.Akill.{Akills, Sent, is_present, new_akill, add_akill, send_akill}
use oftc_blitzed.Akill.Command.{
  Config, Setter, akill_added, too_general, add_counted, add_mask, do_akill_add,
}

-- A mask that an oper may set for 12 hours: new, specific, and of at most 20 users.
pub record IsAllowed (cfg : Config) (users : List User) (t : Akills) (mask : Bytes) (n : ℕ)
    : Type 0 where
  pub token : IsToken b' ' mask
  pub no_keyword : is_zero (stricmp mask (codes "FORCE")) ≡ false
  pub shape : (has b'!' mask ≡ false) × (has b'@' mask ≡ true)
  pub specific : too_general cfg false mask ≡ false
  pub counted : count_mask_matches (strlower mask) users ≡ some n
  pub few : n ≤ 20
  pub new : is_present (strlower (strlower mask)) t.rows ≡ false
  pub room : length t.rows < 32767

by_tokens :
    (cfg : Config) (users : List User) (u : Setter) (now : ℕ) (t : Akills)
    (line rest mask reason : Bytes) (n : ℕ)
    → u.svs_operadmin ≡ 0
    → u.identified ≡ true
    → cfg.dotime (codes "+0") ≡ some 0
    → IsAllowed cfg users t mask n
    → IsHost reason
    → strtok b' ' line ≡ (some (codes "+0"), rest)
    → strtok b' ' rest ≡ (some mask, reason)
    → do_akill_add cfg users u now line t
      ≡ some (
        record {
          rows = new_akill (strlower mask) reason u.nick 0 t.next_id ∷ t.rows;
          next_id = t.next_id + 1;
        },
        akill_added n,
        if cfg.immediately_send_akill then send_akill (strlower (strlower mask)) else [],
      )
unfolding do_akill_add add_mask add_counted add_akill
by_tokens cfg users u now t line rest mask reason n o i d v h e f =
    let room : leb 32767 (length t.rows) ≡ false = ground (arith, v.room) in
    let few : ltb 20 n ≡ false = ground (arith, v.few) in
    let long : ltb 43200 (0 - now) ≡ false = ground arith in
    rw
      (
        do_akill_add,
        i,
        room,
        e,
        d,
        f,
        v.no_keyword,
        strtok_rest-IsHost reason h,
        add_mask,
        v.shape.0,
        v.shape.1,
        v.specific,
        v.counted,
        add_counted,
        few,
        long,
        add_akill,
        room,
        v.new,
      )
      refl

-- An oper who is identified and no Services oper gives `+0`, which dotime reads as 0, a mask that he
-- may set for 12 hours, and a reason. AKILL ADD then adds an AKILL that never expires.
pub do_akill_add-permanent :
    (cfg : Config) (users : List User) (u : Setter) (now : ℕ) (t : Akills) (mask reason : Bytes)
    (n : ℕ)
    → u.svs_operadmin ≡ 0
    → u.identified ≡ true
    → cfg.dotime (codes "+0") ≡ some 0
    → IsAllowed cfg users t mask n
    → IsHost reason
    → (sent : List Sent) × (do_akill_add cfg users u now
          (codes "+0" ++ b' ' ∷ (mask ++ b' ' ∷ reason))
          t
        ≡ some (
          record {
            rows = new_akill (strlower mask) reason u.nick 0 t.next_id ∷ t.rows;
            next_id = t.next_id + 1;
          },
          akill_added n,
          sent,
        ))
do_akill_add-permanent cfg users u now t mask reason n o i d v h = (
  if cfg.immediately_send_akill then send_akill (strlower (strlower mask)) else [],
  by_tokens cfg users u now t (codes "+0" ++ b' ' ∷ (mask ++ b' ' ∷ reason)) (mask ++ b' ' ∷ reason)
      mask reason n o i d v h
      (strtok-middle b' ' (codes "+0") (mask ++ b' ' ∷ reason)
        ((λ e. omega (arith, e)), ((λ e. omega (arith, e)), tt)))
      (strtok-middle b' ' mask reason v.token),
)
