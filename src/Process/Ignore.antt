-- ===== src/Process/Ignore.antt =====
-- src/process.c: add_ignore and get_ignore, the nicks that are ignored, hashed by their first
-- character. The clock is an argument.
pub mod Time
use oftc_blitzed.Base.{
  ℕ, ◌+◌, Bool, true, false, List, [], ◌∷◌, Option, none, some, ◌==◌, if◌then◌else◌, ltb, leb,
  Bytes,
}
use oftc_blitzed.Text.{tolower, irc_stricmp, stricmp, is_zero, strscpy}

-- struct ignore_data of include/services.h
pub record IgnoreData : Type 0 where
  pub who : Bytes
  pub time : ℕ

abbrev pub Table : Type 0
Table = ℕ → List IgnoreData

-- tolower(nick[0]), where an empty nick has the NUL.
abbrev pub whichlist : Bytes → ℕ
whichlist [] = tolower 0
whichlist (c ∷ s) = tolower c

abbrev pub is_who : Bytes → IgnoreData → Bool
is_who nick ign = is_zero (stricmp ign.who nick)

pub has_ignore : Bytes → List IgnoreData → Bool
has_ignore who [] = false
has_ignore who (ign ∷ l) = if is_who who ign then true else has_ignore who l

-- The time to which an ignore runs that ran to `time` before.
abbrev pub prolong : ℕ → ℕ → ℕ → ℕ
prolong now delta time = if ltb now time then time + delta else now + delta

pub renew : ℕ → ℕ → Bytes → List IgnoreData → List IgnoreData
renew now delta who [] = []
renew now delta who (ign ∷ l) =
    if is_who who ign
    then record { who = ign.who; time = prolong now delta ign.time } ∷ l
    else ign ∷ renew now delta who l

pub add_to : ℕ → ℕ → Bytes → List IgnoreData → List IgnoreData
unfolding has_ignore renew
add_to now delta who l =
    if has_ignore who l then renew now delta who l else record { who = who; time = now + delta } ∷ l

abbrev pub put : ℕ → List IgnoreData → Table → Table
put i l ignore j = if j == i then l else ignore j

pub add_ignore : ℕ → Bytes → ℕ → Table → Table
unfolding add_to
add_ignore now nick delta ignore =
    let i = whichlist nick in put i (add_to now delta (strscpy [] nick 32) (ignore i)) ignore

-- An entry that has run out is taken off the list.
pub get_from : ℕ → Bytes → List IgnoreData → Option IgnoreData × List IgnoreData
get_from now nick [] = (none, [])
get_from now nick (ign ∷ l) =
    let (found, rest) = get_from now nick l in
    if is_zero (irc_stricmp ign.who nick)
    then (if leb ign.time now then (none, l) else (some ign, ign ∷ l))
    else (found, ign ∷ rest)

pub get_ignore : ℕ → Bytes → Table → Option IgnoreData × Table
unfolding get_from
get_ignore now nick ignore =
    let i = whichlist nick in
    let (found, l) = get_from now nick (ignore i) in (found, put i l ignore)
