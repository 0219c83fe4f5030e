-- ===== src/Akill/Check.antt =====
-- Who is killed by check_akill, and by which AKILL.
use oftc_blitzed.Base.{
  ℕ, ◌<◌, ◌≤◌, ◌≡◌, ◌≢◌, refl, ap, subst, Bool, true, false, not, ◌⊎◌, inl, inr, List, [], ◌∷◌,
  Option, none, some, arith, leb, Bytes, length, keep_if, Bool-cases,
}
use oftc_blitzed.Text.{strlower, stricmp, is_zero}
use oftc_blitzed.Wild.{match_wild_nocase}
use oftc_blitzed.Akill.{
  Akill, Akills, Sent, kill, send_akill, first_row, user_host, killed, check_akill, is_expired,
  expire_akills, added, is_present, new_akill, add_akill, Owner, may_delete, del_akill, delete_row,
  without,
}

abbrev pub Has : List Akill → Akill → Type 0
Has [] r = ⊥
Has (x ∷ l) r = (x ≡ r) ⊎ Has l r

the : Akill → Option Akill → Akill
the d none = d
the d (some y) = y

first_row-Has :
    (p : Akill → Bool) (l : List Akill) (r : Akill)
    → first_row p l ≡ some r
    → Has l r × (p r ≡ true)
unfolding the
first_row-Has p [] r e = absurd (cc)
first_row-Has p (x ∷ l) r e = elim (Bool-cases (p x)) [
  | inl h ↦ let q : x ≡ r = ap (the x) (rw h at e) in (inl q, subst (λ y. p y ≡ true) q h)
  | inr h ↦ let (m, q) = first_row-Has p l r (rw h at e) in (inr m, q)
]

keep_if-Has :
    (p : Akill → Bool) (l : List Akill) (r : Akill) → Has (keep_if p l) r → Has l r × (p r ≡ true)
keep_if-Has p [] r m = absurd m
keep_if-Has p (x ∷ l) r m = elim (Bool-cases (p x)) [
  | inl h ↦ kept (λ n. keep_if-Has p l r n) h (rw h at m)
  | inr h ↦ let (n, q) = keep_if-Has p l r (rw h at m) in (inr n, q)
]
  where
    kept :
        (Has (keep_if p l) r → Has l r × (p r ≡ true))
        → p x ≡ true
        → (x ≡ r) ⊎ Has (keep_if p l) r
        → ((x ≡ r) ⊎ Has l r) × (p r ≡ true)
    kept rest h (inl q) = (inl q, subst (λ y. p y ≡ true) q h)
    kept rest h (inr n) = let (k, q) = rest n in (inr k, q)

first_row-front :
    (p q : Akill → Bool) (r : Akill) (l : List Akill)
    → p r ≡ true
    → q r ≡ true
    → first_row p (keep_if q (r ∷ l)) ≡ some r
first_row-front p q r l h k = rw k (rw h refl)

-- The AKILL r has not expired at the time now.
abbrev pub IsCurrent : ℕ → Akill → Type 0
IsCurrent now r = r.expires ≢ 0 → now ≤ r.expires

current : (now : ℕ) (r : Akill) → not (is_expired now r) ≡ true → IsCurrent now r
current now r h n = ground (arith, h, n)

not_expired : (now : ℕ) (r : Akill) → IsCurrent now r → not (is_expired now r) ≡ true
not_expired now r c = ground (arith, c)

-- A user who is killed on connecting, when the expired AKILLs have been taken out, is killed by an
-- AKILL of the table whose mask covers user@host and which has not expired.
pub record IsKilledBy (now : ℕ) (t : Akills) (nick username host : Bytes) (sent : List Sent)
    (r : Akill) : Type 0 where
  pub in_table : Has t.rows r
  pub covers : match_wild_nocase r.mask (user_host username host) ≡ true
  pub current : IsCurrent now r
  pub sends : sent ≡ kill nick r.akill_id ∷ send_akill r.mask

killed-by :
    (nick : Bytes) (o : Option Akill)
    → (killed nick o).0 ≡ true
    → (r : Akill) × (o ≡ some r) × ((killed nick o).1 ≡ kill nick r.akill_id ∷ send_akill r.mask)
killed-by nick none h = absurd (cc)
killed-by nick (some r) h = (r, refl, refl)

-- Whoever check_akill kills after expire_akills is killed by an AKILL that is in the table, covers
-- user@host, and has not expired; the messages sent are the KILL with its ID and its KLINE.
pub check_akill-IsKilledBy :
    (wall : Bool) (now : ℕ) (nick username host : Bytes) (t : Akills)
    → (check_akill nick username host (expire_akills false wall now t).0).0 ≡ true
    → (r : Akill) × IsKilledBy now t nick username host
        (check_akill nick username host (expire_akills false wall now t).0).1
        r
unfolding check_akill expire_akills
check_akill-IsKilledBy wall now nick username host t h =
    let rows = keep_if (λ r. not (is_expired now r)) t.rows in
    let p = λ (r : Akill). match_wild_nocase r.mask (user_host username host) in
    let (r, e, q) = killed-by nick (first_row p rows) h in
    let (m, c) = first_row-Has p rows r e in
    let (n, x) = keep_if-Has (λ r. not (is_expired now r)) t.rows r m in
    (r, record { in_table = n; covers = c; current = current now r x; sends = q })

-- A new AKILL that fits into the table works: add_akill adds it if its mask is not there yet, and as
-- long as it has not expired, check_akill, after expire_akills with any configuration, kills the users
-- that it covers, and sends the KILL with its ID and then its KLINE.
pub check_akill-add_akill :
    (immediate opt_noexpire wall : Bool) (mask reason who : Bytes) (expiry now : ℕ)
    (nick username host : Bytes) (t : Akills)
    → length t.rows < 32767
    → is_present (strlower mask) t.rows ≡ false
    → match_wild_nocase (strlower mask) (user_host username host) ≡ true
    → (expiry ≢ 0 → now ≤ expiry)
    → ((add_akill immediate mask reason who expiry t).1 ≡ added)
      × (check_akill nick username host
            (expire_akills opt_noexpire wall now (add_akill immediate mask reason who expiry t).0).0
          ≡ (true, kill nick t.next_id ∷ send_akill (strlower mask)))
unfolding check_akill expire_akills add_akill
check_akill-add_akill immediate opt wall mask reason who expiry now nick username host t f a m c =
    let r = new_akill mask reason who expiry t.next_id in
    let p = λ (x : Akill). match_wild_nocase x.mask (user_host username host) in
    let b : leb 32767 (length t.rows) ≡ false = ground (arith, f) in
    rw (add_akill, b, a)
      (
        refl,
        elim (Bool-cases opt) [
          | inl h ↦ rw (h, m) refl
          | inr h ↦ rw h (
              ap (killed nick)
                (first_row-front p (λ x. not (is_expired now x)) r t.rows m (not_expired now r c)))
        ],
      )

-- Somebody who is not a Services oper takes out an AKILL only if the nick that set it is registered
-- and linked to the same nick as the user's.
pub del_akill-own :
    (o : Owner) (mask : Bytes) (t : Akills)
    → o.services_oper ≡ false
    → (del_akill o mask t).1 ≡ true
    → (r : Akill) × Has t.rows r
      × (o.findnick r.who ≢ 0)
      × (o.getlink (o.findnick r.who) ≡ o.getlink o.nick_id)
      × ((del_akill o mask t).0.rows ≡ without r.akill_id t.rows)
unfolding del_akill
del_akill-own o mask t f h = by_row (first_row (λ r. is_zero (stricmp r.mask mask)) t.rows) refl h
  where
    by_row :
        (x : Option Akill)
        → first_row (λ r. is_zero (stricmp r.mask mask)) t.rows ≡ x
        → (delete_row o x t).1 ≡ true
        → (r : Akill) × Has t.rows r
          × (o.findnick r.who ≢ 0)
          × (o.getlink (o.findnick r.who) ≡ o.getlink o.nick_id)
          × ((delete_row o x t).0.rows ≡ without r.akill_id t.rows)
    by_row none e h = absurd (cc)
    by_row (some r) e h = elim (Bool-cases (may_delete o r)) [
      | inl q ↦ (
        r,
        (first_row-Has (λ r. is_zero (stricmp r.mask mask)) t.rows r e).0,
        λ z. ground (arith, f, q, z),
        ground (arith, f, q),
        rw q refl,
      )
      | inr q ↦ absurd (cc (rw q at h))
    ]
