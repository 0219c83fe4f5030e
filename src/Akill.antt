-- ===== src/Akill.antt =====
-- src/akill.c: AKILLs in a table of the database, newest first. IRC_MATCH is the one of
-- mysql/blitzed_udf.c without a third argument, which is match_wild_nocase. The database compares
-- masks without regard to case. Notices are the answers.
pub mod Command
pub mod Check
mod Examples
use oftc_blitzed.Base.{
  ℕ, zero, suc, ◌+◌, ◌-◌, Bool, true, false, not, ◌&&◌, ◌||◌, List, [], ◌∷◌, ◌++◌, Option, none,
  some, ◌==◌, if◌then◌else◌, ltb, leb, Bytes, codes, length, keep_if,
}
use oftc_blitzed.Text.{strlower, strscpy, stricmp, str_eq, is_zero}
use oftc_blitzed.Wild.{match_wild_nocase}
use oftc_blitzed.Users.Mask.{
  User, word_of, after_word, has, strtok, strtok_rest, count_mask_matches,
}

-- A row of the table; an `expires` of 0 is never.
pub record Akill : Type 0 where
  pub akill_id : ℕ
  pub mask : Bytes
  pub reason : Bytes
  pub who : Bytes
  pub expires : ℕ

pub record Akills : Type 0 where
  pub rows : List Akill
  pub next_id : ℕ

-- KLINE, UNKLINE and KILL
pub data Sent : Type 0 where
  kline unkline : (username host : Bytes) → Sent
  kill : (nick : Bytes) (akill_id : ℕ) → Sent

-- A mask without an `@` is reported, and nothing is sent.
unfoldable pub send_akill : Bytes → List Sent
unfolding has word_of after_word
send_akill mask =
    if has b'@' mask then kline (word_of b'@' mask) (after_word b'@' mask) ∷ [] else []

-- The first row that passes a test.
abbrev pub first_row : (Akill → Bool) → List Akill → Option Akill
first_row p [] = none
first_row p (r ∷ l) = if p r then some r else first_row p l

-- The 512 bytes of user@host; the host is in lower case.
pub user_host : Bytes → Bytes → Bytes
user_host username host =
    let user = strscpy [] username 510 in
    user ++ b'@' ∷ strlower (strscpy [] host (512 - (length user + 1)))

abbrev pub killed : Bytes → Option Akill → Bool × List Sent
killed nick none = (false, [])
killed nick (some r) = (true, kill nick r.akill_id ∷ send_akill r.mask)

-- "... WHERE IRC_MATCH(mask, '%s') ORDER BY akill_id DESC": only the first row matters.
pub check_akill : Bytes → Bytes → Bytes → Akills → Bool × List Sent
unfolding user_host send_akill
check_akill nick username host t =
    killed nick (first_row (λ r. match_wild_nocase r.mask (user_host username host)) t.rows)

abbrev pub is_expired : ℕ → Akill → Bool
is_expired now r = not (r.expires == 0) && ltb r.expires now

abbrev pub unsent : List Akill → List Sent
unsent [] = []
unsent (r ∷ l) =
    if has b'@' r.mask
    then unkline (word_of b'@' r.mask) (strlower (after_word b'@' r.mask)) ∷ unsent l
    else unsent l

pub expire_akills : (opt_noexpire wall_akill_expire : Bool) → ℕ → Akills → Akills × List Sent
unfolding has word_of after_word
expire_akills opt_noexpire wall_akill_expire now t = if opt_noexpire then (t, []) else (
  record t { rows = keep_if (λ r. not (is_expired now r)) t.rows },
  if wall_akill_expire then unsent (keep_if (is_expired now) t.rows) else [],
)

pub data Result : Type 0 where
  added akill_present too_many_akills : Result

abbrev pub is_present : Bytes → List Akill → Bool
is_present mask [] = false
is_present mask (r ∷ l) = if is_zero (stricmp r.mask mask) then true else is_present mask l

abbrev pub insert_akill : Akill → Akills → Akills × Result
insert_akill r t =
    if is_present r.mask t.rows
    then (t, akill_present)
    else (record { rows = r ∷ t.rows; next_id = t.next_id + 1 }, added)

abbrev pub new_akill : Bytes → Bytes → Bytes → ℕ → ℕ → Akill
new_akill mask reason who expiry id = record {
  akill_id = id;
  mask = strlower mask;
  reason = reason;
  who = strscpy [] who 32;
  expires = expiry;
}

-- With ImmediatelySendAkill the mask is sent, also when it was there already.
unfoldable pub add_akill : Bool → Bytes → Bytes → Bytes → ℕ → Akills → Akills × Result × List Sent
unfolding send_akill
add_akill immediately mask reason who expiry t =
    if leb 32767 (length t.rows)
    then (t, too_many_akills, [])
    else (let (t', result) = insert_akill (new_akill mask reason who expiry t.next_id) t in
        (t', result, if immediately then send_akill (strlower mask) else []))

-- What del_akill asks of the user and of the database: the ID of a nick, 0 if it is not registered,
-- and the nick that it is linked to.
pub record Owner : Type 0 where
  pub services_oper : Bool
  pub nick_id : ℕ
  pub findnick : Bytes → ℕ
  pub getlink : ℕ → ℕ

abbrev pub may_delete : Owner → Akill → Bool
may_delete o r =
    o.services_oper
    || not (o.findnick r.who == 0) && o.getlink (o.findnick r.who) == o.getlink o.nick_id

abbrev pub without : ℕ → List Akill → List Akill
without id = keep_if (λ r. not (r.akill_id == id))

abbrev pub delete_row : Owner → Option Akill → Akills → Akills × Bool
delete_row o none t = (t, false)
delete_row o (some r) t =
    if may_delete o r then (record t { rows = without r.akill_id t.rows }, true) else (t, false)

pub del_akill : Owner → Bytes → Akills → Akills × Bool
del_akill o mask t = delete_row o (first_row (λ r. is_zero (stricmp r.mask mask)) t.rows) t
