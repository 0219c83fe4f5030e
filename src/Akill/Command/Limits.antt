-- ===== src/Akill/Command/Limits.antt =====
-- What AKILL ADD lets an oper do.
use oftc_blitzed.Base.{
  ℕ, ◌+◌, ◌<◌, ◌≤◌, ◌≡◌, refl, sym, ap, ◌∙◌, Bool, true, false, ◌&&◌, List, [], ◌∷◌, Option, none,
  some, arith, ltb, leb, ◌==◌, Bytes, length, Bool-cases, inl, inr,
}
use oftc_blitzed.Text.{strlower, strscpy, tolower}
use oftc_blitzed.Text.Fold.{strlower-strlower}
use oftc_blitzed.Users.Mask.{User, has, strtok, strtok_rest, count_mask_matches}
use oftc_blitzed.Akill.{Akill, Akills, Sent, is_present, new_akill, add_akill}
use oftc_blitzed.Akill.Command.{
  Config, Setter, Answer, akill_added, plain_bytes, nonwild, too_general, is_long, report,
  add_counted, if_counted, add_mask, with_reason, absolute, is_force, with_expiry, with_force,
  is_expiry, time_of, do_akill_add,
}

has-strlower : (s : Bytes) → has b'@' (strlower s) ≡ has b'@' s
unfolding has strlower tolower
has-strlower [] = refl
has-strlower (c ∷ s) = ground (arith, has-strlower s)

plain_bytes-strlower : (s : Bytes) → plain_bytes (strlower s) ≡ plain_bytes s
unfolding strlower tolower
plain_bytes-strlower [] = refl
plain_bytes-strlower (c ∷ s) = ground (arith, plain_bytes-strlower s)

at-tolower : (c : ℕ) → (tolower c == b'@') ≡ (c == b'@')
unfolding tolower
at-tolower c = ground arith

-- The bytes of its own that a mask has are as many in lower case.
nonwild-strlower : (s : Bytes) → nonwild (strlower s) ≡ nonwild s
unfolding nonwild strlower
nonwild-strlower [] = refl
nonwild-strlower (c ∷ s) =
    rw (has-strlower s, nonwild-strlower s, plain_bytes-strlower s, at-tolower c) refl

matches_of : Answer → ℕ
matches_of (akill_added m) = m
matches_of _ = 0

-- With room in the table, an answer of `added` is given to the row that is now in front.
report-row :
    (b : Bool) (mask reason who : Bytes) (expires n : ℕ) (t t' : Akills) (m : ℕ) (s : List Sent)
    → length t.rows < 32767
    → report n (add_akill b mask reason who expires t) ≡ (t', akill_added m, s)
    → (t' ≡ record {
      rows = new_akill mask reason who expires t.next_id ∷ t.rows;
      next_id = t.next_id + 1;
    })
      × (n ≡ m)
unfolding add_akill matches_of
report-row b mask reason who expires n t t' m s room e =
    let free : leb 32767 (length t.rows) ≡ false = ground (arith, room) in
    elim (Bool-cases (is_present (strlower mask) t.rows)) [
      | inl h ↦ absurd (cc (rw (add_akill, free, h) at e))
      | inr h ↦
          let q = rw (add_akill, free, h) at e in
          (sym (ap (λ x. x.0) q), ap (λ x. matches_of x.1) q)
    ]

module _ (cfg : Config) (users : List User) (u : Setter) (now : ℕ) (t : Akills) where
  -- The AKILL that is added, in front of the others, is one that an oper may set: it is in his name,
  -- its host has enough bytes of its own, it covers at most 20 users, and it ends within 12 hours, or
  -- never (0).
  pub record IsModest (t' : Akills) (matches : ℕ) : Type 0 where
    pub row : Akill
    pub sets : t' ≡ record { rows = row ∷ t.rows; next_id = t.next_id + 1 }
    pub named : row.who ≡ strscpy [] u.nick 32
    pub specific : cfg.akill_wild_thresh ≤ nonwild row.mask
    pub counted : count_mask_matches row.mask users ≡ some matches
    pub few : matches ≤ 20
    pub short : row.expires ≤ now + 43200

  -- What an answer of `added` lets one conclude.
  abbrev Good : Option (Akills × Answer × List Sent) → Type 0
  Good o = (t' : Akills) (m : ℕ) (s : List Sent) → o ≡ some (t', akill_added m, s) → IsModest t' m

  triple :
      Akills × Answer × List Sent
      → Option (Akills × Answer × List Sent)
      → Akills × Answer × List Sent
  triple d none = d
  triple d (some x) = x

  add_counted-Good :
      (expires : ℕ) (mask reason : Bytes) (n : ℕ)
      → length t.rows < 32767
      → u.svs_operadmin ≡ 0
      → cfg.akill_wild_thresh ≤ nonwild mask
      → count_mask_matches (strlower mask) users ≡ some n
      → Good (some (add_counted cfg u now expires (strlower mask) reason t n))
  unfolding add_counted triple
  add_counted-Good expires mask reason n w o g c t' m s e =
      elim (Bool-cases (ltb 20 n && ltb u.svs_operadmin 1)) [
        | inl h ↦ absurd (cc (rw (add_counted, h) at e))
        | inr h ↦ elim (Bool-cases (is_long expires now u)) [
          | inl k ↦ absurd (cc (rw (add_counted, h, k) at e))
          | inr k ↦
              let (r, same) =
                report-row cfg.immediately_send_akill (strlower mask) reason u.nick expires n t t' m
                  s w (ap (triple (t', akill_added m, s)) (rw (add_counted, h, k) at e)) in
              record {
                row = new_akill (strlower mask) reason u.nick expires t.next_id;
                sets = r;
                named = refl;
                specific = rw (strlower-strlower mask, nonwild-strlower mask) g;
                counted = rw (strlower-strlower mask) (c ∙ ap some same);
                few = ground (arith, h, o, same);
                short = ground (arith, k, o);
              }
        ]
      ]

  add_mask-Good :
      (expires : ℕ) (mask reason : Bytes)
      → length t.rows < 32767
      → u.svs_operadmin ≡ 0
      → Good (add_mask cfg users u now false expires mask reason t)
  unfolding add_mask
  add_mask-Good expires mask reason w o t' m s e = elim (Bool-cases (has b'!' mask)) [
    | inl h ↦ absurd (cc (rw (add_mask, h) at e))
    | inr h ↦ elim (Bool-cases (has b'@' mask)) [
      | inr k ↦ absurd (cc (rw (add_mask, h, k) at e))
      | inl k ↦ elim (Bool-cases (too_general cfg false mask)) [
        | inl g ↦ absurd (cc (rw (add_mask, h, k, g) at e))
        | inr g ↦
            counted (count_mask_matches (strlower mask) users) refl (ground (arith, g))
              (rw (add_mask, h, k, g) at e)
      ]
    ]
  ]
    where
      counted :
          (c : Option ℕ)
          → count_mask_matches (strlower mask) users ≡ c
          → cfg.akill_wild_thresh ≤ nonwild mask
          → if_counted c (add_counted cfg u now expires (strlower mask) reason t)
            ≡ some (t', akill_added m, s)
          → IsModest t' m
      counted none c g q = absurd (cc)
      counted (some n) c g q = add_counted-Good expires mask reason n w o g c t' m s q

  with_reason-Good :
      (expires : ℕ) (mask reason : Option Bytes)
      → length t.rows < 32767
      → u.svs_operadmin ≡ 0
      → Good (with_reason cfg users u now false expires mask reason t)
  with_reason-Good expires none reason w o t' m s e = absurd (cc)
  with_reason-Good expires (some mask) none w o t' m s e = absurd (cc)
  with_reason-Good expires (some mask) (some reason) w o t' m s e =
      add_mask-Good expires mask reason w o t' m s e

  with_expiry-Good :
      (n : Option ℕ) (p : Option Bytes × Bytes)
      → length t.rows < 32767
      → u.svs_operadmin ≡ 0
      → Good (with_expiry cfg users u now false n p t)
  with_expiry-Good none (mask, r) w o t' m s e = absurd (cc)
  with_expiry-Good (some n) (mask, r) w o t' m s e =
      with_reason-Good (absolute now n) mask (strtok_rest r) w o t' m s e

  with_force-Good :
      (n : Option ℕ) (p : Option Bytes × Bytes)
      → length t.rows < 32767
      → u.svs_operadmin ≡ 0
      → Good (with_force cfg users u now n p t)
  with_force-Good n (mask, r) w o t' m s e = elim (Bool-cases (is_force mask)) [
    | inl h ↦
        let b : ltb 1 u.svs_operadmin ≡ false = ground (arith, o) in absurd (cc (rw (h, b) at e))
    | inr h ↦ with_expiry-Good n (mask, r) w o t' m s (rw h at e)
  ]

  -- When an oper who is no Services oper is told that AKILL ADD has added his AKILL, he is identified,
  -- there were fewer than 32767 AKILLs, and exactly one has come in front of them: in his name, with a
  -- mask that has enough bytes of its own behind the @ and covers as many users as he is told, at
  -- most 20, and ending within 12 hours, or never.
  pub do_akill_add-IsModest :
      (line : Bytes) (t' : Akills) (m : ℕ) (s : List Sent)
      → u.svs_operadmin ≡ 0
      → do_akill_add cfg users u now line t ≡ some (t', akill_added m, s)
      → IsModest t' m × (u.identified ≡ true) × (length t.rows < 32767)
  unfolding do_akill_add
  do_akill_add-IsModest line t' m s o e = elim (Bool-cases u.identified) [
    | inr h ↦ absurd (cc (rw (do_akill_add, h) at e))
    | inl h ↦ elim (Bool-cases (leb 32767 (length t.rows))) [
      | inl k ↦ absurd (cc (rw (do_akill_add, h, k) at e))
      | inr k ↦
          let w : length t.rows < 32767 = ground (arith, k) in
          elim (Bool-cases (is_expiry (strtok b' ' line).0)) [
            | inl x ↦ (
              with_force-Good (time_of cfg (strtok b' ' line).0) (strtok b' ' (strtok b' ' line).1)
                  w o t' m s (rw (do_akill_add, h, k, x) at e),
              h,
              w,
            )
            | inr x ↦ (
              with_force-Good (time_of cfg none) (strtok b' ' line) w o t' m s
                  (rw (do_akill_add, h, k, x) at e),
              h,
              w,
            )
          ]
    ]
  ]
