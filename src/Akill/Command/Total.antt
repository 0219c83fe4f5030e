-- ===== src/Akill/Command/Total.antt =====
-- AKILL ADD answers every line: the mask that it counts the matches of has no `!`, so that
-- match_usermask finds no NULL.
use oftc_blitzed.Base.{
  ℕ, ◌≡◌, refl, ◌∙◌, Bool, true, false, List, [], ◌∷◌, Option, none, some, arith, if◌then◌else◌,
  leb, ltb, length, Bytes, Bool-cases, inl, inr, ◌+◌,
}
use oftc_blitzed.Text.{strlower, tolower}
use oftc_blitzed.Users.Mask.{
  User, has, strtok, strtok_rest, match_rest, count_mask_matches, match_usermask,
}
use oftc_blitzed.Akill.{Akills, Sent}
use oftc_blitzed.Akill.Command.{
  Config, Setter, Answer, too_general, add_counted, add_mask, with_reason, absolute, is_force,
  with_expiry, with_force, is_expiry, time_of, do_akill_add,
}

abbrev IsGiven {ℓ} : {A : Type ℓ} → Option A → Type ℓ
IsGiven {A = A} o = (a : A) × (o ≡ some a)

has-strlower : (s : Bytes) → has b'!' (strlower s) ≡ has b'!' s
unfolding has strlower tolower
has-strlower [] = refl
has-strlower (c ∷ s) = ground (arith, has-strlower s)

match_usermask-plain :
    (mask : Bytes) (u : User)
    → has b'!' mask ≡ false
    → match_usermask mask u ≡ some (match_rest none (strtok b'@' mask) u)
unfolding match_usermask
match_usermask-plain mask u h = rw (match_usermask, h) refl

count_mask_matches-IsGiven :
    (mask : Bytes) (users : List User)
    → has b'!' mask ≡ false
    → IsGiven (count_mask_matches mask users)
unfolding count_mask_matches
count_mask_matches-IsGiven mask [] h = (0, refl)
count_mask_matches-IsGiven mask (u ∷ us) h =
    let (n, e) = count_mask_matches-IsGiven mask us h in
    let b = match_rest none (strtok b'@' mask) u in
    (if b then n + 1 else n, rw (count_mask_matches, match_usermask-plain mask u h, e) refl)

module _ (cfg : Config) (users : List User) (u : Setter) (now : ℕ) (t : Akills) where
  add_mask-IsGiven :
      (force : Bool) (expires : ℕ) (mask reason : Bytes)
      → IsGiven (add_mask cfg users u now force expires mask reason t)
  unfolding add_mask
  add_mask-IsGiven force expires mask reason = elim (Bool-cases (has b'!' mask)) [
    | inl h ↦ rw (add_mask, h) (_, refl)
    | inr h ↦ elim (Bool-cases (has b'@' mask)) [
      | inr k ↦ rw (add_mask, h, k) (_, refl)
      | inl k ↦ elim (Bool-cases (too_general cfg force mask)) [
        | inl g ↦ rw (add_mask, h, k, g) (_, refl)
        | inr g ↦
            let (n, e) = count_mask_matches-IsGiven (strlower mask) users (has-strlower mask ∙ h) in
            (
              add_counted cfg u now expires (strlower mask) reason t n,
              rw (add_mask, h, k, g, e) refl,
            )
      ]
    ]
  ]

  with_expiry-IsGiven :
      (force : Bool) (n : Option ℕ) (p : Option Bytes × Bytes)
      → IsGiven (with_expiry cfg users u now force n p t)
  with_expiry-IsGiven force none (mask, r) = (_, refl)
  with_expiry-IsGiven force (some n) (mask, r) = by_words mask (strtok_rest r)
    where
      by_words :
          (mask reason : Option Bytes)
          → IsGiven (with_reason cfg users u now force (absolute now n) mask reason t)
      by_words none reason = (_, refl)
      by_words (some mask) none = (_, refl)
      by_words (some mask) (some reason) = add_mask-IsGiven force (absolute now n) mask reason

  with_force-IsGiven :
      (n : Option ℕ) (p : Option Bytes × Bytes) → IsGiven (with_force cfg users u now n p t)
  with_force-IsGiven n (mask, r) = elim (Bool-cases (is_force mask)) [
    | inr h ↦ rw h (with_expiry-IsGiven false n (mask, r))
    | inl h ↦ elim (Bool-cases (ltb 1 u.svs_operadmin)) [
      | inl k ↦ rw (h, k) (with_expiry-IsGiven true n (strtok b' ' r))
      | inr k ↦ rw (h, k) (_, refl)
    ]
  ]

  -- AKILL ADD never dereferences NULL, whatever the line is.
  pub do_akill_add-IsGiven :
      (line : Bytes)
      → (r : Akills × Answer × List Sent) × (do_akill_add cfg users u now line t ≡ some r)
  unfolding do_akill_add
  do_akill_add-IsGiven line = elim (Bool-cases u.identified) [
    | inr h ↦ rw (do_akill_add, h) (_, refl)
    | inl h ↦ elim (Bool-cases (leb 32767 (length t.rows))) [
      | inl k ↦ rw (do_akill_add, h, k) (_, refl)
      | inr k ↦ elim (Bool-cases (is_expiry (strtok b' ' line).0)) [
        | inl x ↦
            rw (do_akill_add, h, k, x)
              (with_force-IsGiven (time_of cfg (strtok b' ' line).0)
                (strtok b' ' (strtok b' ' line).1))
        | inr x ↦
            rw (do_akill_add, h, k, x) (with_force-IsGiven (time_of cfg none) (strtok b' ' line))
      ]
    ]
  ]
