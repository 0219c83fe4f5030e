-- ===== src/Flood/Texts.antt =====
-- Finding and replacing a text, and what fs_add_akill does to the table of AKILLs.
use oftc_blitzed.Base.{
  ℕ, ◌+◌, ◌<◌, ◌≤◌, ◌≡◌, ◌≢◌, refl, sym, ap, subst, ◌∙◌, Bool, true, false, not, ◌&&◌, List, [],
  ◌∷◌, ◌++◌, Option, none, some, arith, leb, Bytes, length, keep_if, All, Bool-cases, inl, inr,
}
use oftc_blitzed.Text.{strlower, stricmp, is_zero}
use oftc_blitzed.Text.Fold.{stricmp_refl}
use oftc_blitzed.Akill.{Akills, is_present, add_akill}
use oftc_blitzed.Flood.{
  Flooder, Client, TxtFlood, Config, World, kill_user, kill_host, is_added, mask_of, akill_host,
  fs_add_akill, is_text, find_text, set_text,
}

module _ (id : ℕ) (text : Bytes) where
  pub find_text-keep_if :
      (p : TxtFlood → Bool) (l : List TxtFlood) (x : TxtFlood)
      → find_text id text l ≡ some x
      → p x ≡ true
      → find_text id text (keep_if p l) ≡ some x
  unfolding find_text
  find_text-keep_if p [] x e h = absurd (cc)
  find_text-keep_if p (y ∷ l) x e h = elim (Bool-cases (is_text id text y)) [
    | inl g ↦
        let q : some y ≡ some x = rw (find_text, g) at e in
        let k : p y ≡ true = ap (λ o. passes o) q ∙ h in rw k (rw (find_text, g) q)
    | inr g ↦
        let rest = find_text-keep_if p l x (rw (find_text, g) at e) h in
        elim (Bool-cases (p y)) [ inl k ↦ rw k (rw (find_text, g) rest) | inr k ↦ rw k rest ]
  ]
    where
      passes : Option TxtFlood → Bool
      passes none = false
      passes (some z) = p z

  pub find_text-keep_if-none :
      (p : TxtFlood → Bool) (l : List TxtFlood)
      → find_text id text l ≡ none
      → find_text id text (keep_if p l) ≡ none
  unfolding find_text
  find_text-keep_if-none p [] e = refl
  find_text-keep_if-none p (y ∷ l) e = elim (Bool-cases (is_text id text y)) [
    | inl g ↦ absurd (cc (rw (find_text, g) at e))
    | inr g ↦
        let rest = find_text-keep_if-none p l (rw (find_text, g) at e) in
        elim (Bool-cases (p y)) [ inl k ↦ rw k (rw (find_text, g) rest) | inr k ↦ rw k rest ]
  ]

  pub find_text-set_text :
      (l : List TxtFlood) (x y : TxtFlood)
      → find_text id text l ≡ some x
      → is_text id text y ≡ true
      → find_text id text (set_text id text y l) ≡ some y
  unfolding find_text set_text
  find_text-set_text [] x y e h = absurd (cc)
  find_text-set_text (z ∷ l) x y e h = elim (Bool-cases (is_text id text z)) [
    | inl g ↦ rw (set_text, g) (rw (find_text, h) refl)
    | inr g ↦
        rw (set_text, g) (rw (find_text, g) (find_text-set_text l x y (rw (find_text, g) at e) h))
  ]

pub kill_user-akills : (nick : Bytes) (w : World) → (kill_user nick w).akills ≡ w.akills
unfolding kill_user
kill_user-akills [] w = refl
kill_user-akills (c ∷ nick) w = refl

pub kill_user-killed :
    (nick : Bytes) (w : World) → nick ≢ [] → (kill_user nick w).killed ≡ nick ∷ w.killed
unfolding kill_user
kill_user-killed [] w o = absurd (o refl)
kill_user-killed (c ∷ nick) w o = refl

kill_host-akills :
    (host : Bytes) (l : List Client) (w : World) → (kill_host host l w).akills ≡ w.akills
unfolding kill_host
kill_host-akills host [] w = refl
kill_host-akills host (u ∷ l) w = elim (Bool-cases (is_zero (stricmp u.host host))) [
  | inl h ↦
      rw (kill_host, h) (kill_host-akills host l (kill_user u.nick w) ∙ kill_user-akills u.nick w)
  | inr h ↦ rw (kill_host, h) (kill_host-akills host l w)
]

akill_host-akills :
    (cfg : Config) (expires : ℕ) (host : Bytes) (w : World)
    → (akill_host cfg expires host w).akills
      ≡ (add_akill cfg.immediately_send_akill
          (mask_of host)
          cfg.akill_reason
          cfg.s_floodserv
          expires
          w.akills).0
unfolding akill_host
akill_host-akills cfg expires host w =
    let (t, result, sent) =
      add_akill cfg.immediately_send_akill (mask_of host) cfg.akill_reason cfg.s_floodserv expires
        w.akills in
    elim (Bool-cases (is_added result && not cfg.immediately_send_akill)) [
      | inl h ↦
          rw h (kill_host-akills host w.online (record w { akills = t; sent = sent ++ w.sent }))
      | inr h ↦ rw h refl
    ]

-- What add_akill makes of a table with room.
record Grows (mask : Bytes) (t t' : Akills) : Type 0 where
  there : is_present (strlower mask) t'.rows ≡ true
  stay : (m : Bytes) → is_present m t.rows ≡ true → is_present m t'.rows ≡ true
  longer : length t'.rows ≤ length t.rows + 1

add_akill-Grows :
    (immediate : Bool) (mask reason who : Bytes) (expiry : ℕ) (t : Akills)
    → length t.rows < 32767
    → Grows mask t (add_akill immediate mask reason who expiry t).0
unfolding add_akill
add_akill-Grows immediate mask reason who expiry t f =
    let b : leb 32767 (length t.rows) ≡ false = ground (arith, f) in
    elim (Bool-cases (is_present (strlower mask) t.rows)) [
      | inl h ↦ rw (add_akill, b, h) (record { there = h; stay = λ m e. e; longer = omega arith })
      | inr h ↦
          rw (add_akill, b, h)
            (record {
              there = rw (stricmp_refl (strlower mask)) refl;
              stay = λ m e. ground (arith, e);
              longer = omega arith;
            })
    ]

-- The masks of hosts are in the table.
abbrev pub ArePresent : List Flooder → Akills → Type 0
ArePresent l t = All (λ f. is_present (strlower (mask_of f.host)) t.rows ≡ true) l

-- fs_add_akill adds an AKILL for the host of every flooder that has none yet.
pub fs_add_akill-ArePresent :
    (cfg : Config) (expires : ℕ) (l : List Flooder) (w : World)
    → All (λ f. f.akilled ≡ false) l
    → length w.akills.rows + length l < 32768
    → ArePresent l (fs_add_akill cfg expires l w).akills
      × ((m : Bytes)
          → is_present m w.akills.rows ≡ true
          → is_present m (fs_add_akill cfg expires l w).akills.rows ≡ true)
unfolding fs_add_akill
fs_add_akill-ArePresent cfg expires [] w a f = (tt, λ m e. e)
fs_add_akill-ArePresent cfg expires (x ∷ l) w (h, a) f =
    let w' = akill_host cfg expires x.host w in
    let g = subst (Grows (mask_of x.host) w.akills) (sym (akill_host-akills cfg expires x.host w)) (
      add_akill-Grows cfg.immediately_send_akill (mask_of x.host) cfg.akill_reason cfg.s_floodserv
        expires w.akills (omega (arith, f))) in
    let (p, q) = fs_add_akill-ArePresent cfg expires l w' a (omega (arith, f, g.longer)) in
    let first : fs_add_akill cfg expires (x ∷ l) w ≡ fs_add_akill cfg expires l w' =
      rw (fs_add_akill, h) refl in
    subst
      (λ v.
        ArePresent (x ∷ l) v.akills
        × ((m : Bytes) → is_present m w.akills.rows ≡ true → is_present m v.akills.rows ≡ true))
      (sym first) ((q (strlower (mask_of x.host)) g.there, p), λ m e. q m (g.stay m e))
