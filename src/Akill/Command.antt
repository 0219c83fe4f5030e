-- ===== src/Akill/Command.antt =====
-- AKILL ADD of do_akill in src/akill.c, from the words of the line on. dotime and the configuration are
-- arguments, and the users are a list.
pub mod Limits
pub mod Total
pub mod Permanent
use oftc_blitzed.Base.{
  ℕ, zero, suc, ◌+◌, ◌-◌, Bool, true, false, not, ◌&&◌, ◌||◌, List, [], ◌∷◌, ◌++◌, Option, none,
  some, ◌==◌, if◌then◌else◌, ltb, leb, Bytes, codes, length, keep_if,
}
use oftc_blitzed.Text.{strlower, strscpy, stricmp, str_eq, is_zero}
use oftc_blitzed.Wild.{match_wild_nocase}
use oftc_blitzed.Users.Mask.{
  User, word_of, after_word, has, strtok, strtok_rest, count_mask_matches,
}
use oftc_blitzed.Akill.{
  Akill, Akills, Sent, Result, added, akill_present, too_many_akills, add_akill,
}

-- AutokillExpiry, AkillWildThresh and ImmediatelySendAkill; dotime of src/misc.c, `none` where it is
-- negative.
pub record Config : Type 0 where
  pub autokill_expiry : ℕ
  pub akill_wild_thresh : ℕ
  pub immediately_send_akill : Bool
  pub dotime : Bytes → Option ℕ

-- svs_operadmin is 0 for an oper, 1 for a Services oper and 2 for a Services admin.
pub record Setter : Type 0 where
  pub nick : Bytes
  pub identified : Bool
  pub svs_operadmin : ℕ

pub data Answer : Type 0 where
  identify_required too_many access_denied bad_expiry_time no_nick bad_userhost_mask
        mask_too_general too_many_matches too_long already_akilled syntax_error :
      Answer
  akill_added : (matches : ℕ) → Answer

abbrev pub is_wild : ℕ → Bool
is_wild c = c == b'*' || c == b'?' || c == b'.'

abbrev pub plain_bytes : Bytes → ℕ
plain_bytes [] = 0
plain_bytes (c ∷ s) = if is_wild c then plain_bytes s else plain_bytes s + 1

-- The loop from the end of the mask down to its last `@`.
unfoldable pub nonwild : Bytes → ℕ
unfolding has
nonwild [] = 0
nonwild (c ∷ s) = if has b'@' s then nonwild s else if c == b'@' then plain_bytes s else 0

abbrev pub too_general : Config → Bool → Bytes → Bool
too_general cfg force mask =
    not force && (not (cfg.akill_wild_thresh == 0) && ltb (nonwild mask) cfg.akill_wild_thresh)

-- Where `expires` is 0 the difference in C is negative, and here 0.
abbrev pub is_long : ℕ → ℕ → Setter → Bool
is_long expires t u = ltb 43200 (expires - t) && ltb u.svs_operadmin 1

abbrev pub report : ℕ → Akills × Result × List Sent → Akills × Answer × List Sent
report matches (t, akill_present, sent) = (t, already_akilled, sent)
report matches (t, added, sent) = (t, akill_added matches, sent)
report matches (t, too_many_akills, sent) = (t, akill_added matches, sent)

-- With a number of matches.
unfoldable pub add_counted :
    Config → Setter → ℕ → ℕ → Bytes → Bytes → Akills → ℕ → Akills × Answer × List Sent
unfolding add_akill
add_counted cfg u now expires mask reason t matches =
    if ltb 20 matches && ltb u.svs_operadmin 1
    then (t, too_many_matches, [])
    else if is_long expires now u
    then (t, too_long, [])
    else report matches (add_akill cfg.immediately_send_akill mask reason u.nick expires t)

abbrev pub if_counted {ℓ} : {A : Type ℓ} → Option ℕ → (ℕ → A) → Option A
if_counted none f = none
if_counted (some n) f = some (f n)

-- With a mask and a reason.
unfoldable pub add_mask :
    Config
    → List User
    → Setter
    → ℕ
    → Bool
    → ℕ
    → Bytes
    → Bytes
    → Akills
    → Option (Akills × Answer × List Sent)
unfolding has nonwild count_mask_matches add_counted
add_mask cfg users u now force expires mask reason t =
    if has b'!' mask
    then some (t, no_nick, [])
    else if not (has b'@' mask)
    then some (t, bad_userhost_mask, [])
    else if too_general cfg force mask
    then some (t, mask_too_general, [])
    else if_counted (count_mask_matches (strlower mask) users)
        (add_counted cfg u now expires (strlower mask) reason t)

abbrev pub with_reason :
    Config
    → List User
    → Setter
    → ℕ
    → Bool
    → ℕ
    → Option Bytes
    → Option Bytes
    → Akills
    → Option (Akills × Answer × List Sent)
with_reason cfg users u now force expires (some mask) (some reason) t =
    add_mask cfg users u now force expires mask reason t
with_reason cfg users u now force expires none reason t = some (t, syntax_error, [])
with_reason cfg users u now force expires (some mask) none t = some (t, syntax_error, [])

abbrev pub absolute : ℕ → ℕ → ℕ
absolute now zero = 0
absolute now (suc n) = now + suc n

abbrev pub is_force : Option Bytes → Bool
is_force none = false
is_force (some mask) = is_zero (stricmp mask (codes "FORCE"))

abbrev pub with_expiry :
    Config
    → List User
    → Setter
    → ℕ
    → Bool
    → Option ℕ
    → Option Bytes × Bytes
    → Akills
    → Option (Akills × Answer × List Sent)
with_expiry cfg users u now force none (mask, s) t = some (t, bad_expiry_time, [])
with_expiry cfg users u now force (some n) (mask, s) t =
    with_reason cfg users u now force (absolute now n) mask (strtok_rest s) t

abbrev pub with_force :
    Config
    → List User
    → Setter
    → ℕ
    → Option ℕ
    → Option Bytes × Bytes
    → Akills
    → Option (Akills × Answer × List Sent)
with_force cfg users u now expires (mask, s) t =
    if is_force mask
    then if ltb 1 u.svs_operadmin
      then with_expiry cfg users u now true expires (strtok b' ' s) t
      else some (t, access_denied, [])
    else with_expiry cfg users u now false expires (mask, s) t

abbrev pub is_expiry : Option Bytes → Bool
is_expiry none = false
is_expiry (some []) = false
is_expiry (some (c ∷ s)) = c == b'+'

abbrev pub time_of : Config → Option Bytes → Option ℕ
time_of cfg none = some cfg.autokill_expiry
time_of cfg (some s) = cfg.dotime s

-- AKILL ADD, on what follows in the line. `none` is a crash.
unfoldable pub do_akill_add :
    Config → List User → Setter → ℕ → Bytes → Akills → Option (Akills × Answer × List Sent)
unfolding strtok add_mask
do_akill_add cfg users u now line t =
    if not u.identified
    then some (t, identify_required, [])
    else if leb 32767 (length t.rows)
    then some (t, too_many, [])
    else if is_expiry (strtok b' ' line).0
    then with_force cfg users u now (time_of cfg (strtok b' ' line).0)
        (strtok b' ' (strtok b' ' line).1) t
    else with_force cfg users u now (time_of cfg none) (strtok b' ' line) t
