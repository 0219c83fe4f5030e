-- ===== src/Process/Ignore/Time.antt =====
-- What get_ignore finds of what add_ignore did.
use oftc_blitzed.Base.{
  ℕ, ◌+◌, ◌≤◌, ◌≡◌, refl, ap, ◌∙◌, false, List, [], ◌∷◌, Option, none, some, arith, if◌then◌else◌,
  ltb, Bytes, length,
}
use oftc_blitzed.Text.{stricmp, is_zero, strscpy}
use oftc_blitzed.Text.Fold.{irc_stricmp-stricmp, stricmp_refl, stricmp_trans}
use oftc_blitzed.Process.Lines.{strscpy-short}
use oftc_blitzed.Process.Ignore.{
  IgnoreData, Table, whichlist, is_who, has_ignore, prolong, renew, add_to, put, add_ignore,
  get_from, get_ignore,
}

-- The time up to which a nick is ignored, by the first entry for it.
pub until : Bytes → List IgnoreData → Option ℕ
until nick [] = none
until nick (ign ∷ l) = if is_who nick ign then some ign.time else until nick l

abbrev pub ignored_until : Bytes → Table → Option ℕ
ignored_until nick ignore = until nick (ignore (whichlist nick))

abbrev pub prolonged : ℕ → ℕ → Option ℕ → ℕ
prolonged now delta none = now + delta
prolonged now delta (some t) = prolong now delta t

until-add_to :
    (now delta : ℕ) (nick : Bytes) (l : List IgnoreData)
    → until nick (add_to now delta nick l) ≡ some (prolonged now delta (until nick l))
unfolding until add_to has_ignore renew
until-add_to now delta nick [] = rw (stricmp_refl nick)
until-add_to now delta nick (ign ∷ l) =
    ground (arith, stricmp_refl nick, until-add_to now delta nick l)

abbrev pub time_of : Option IgnoreData → Option ℕ
time_of none = none
time_of (some ign) = some ign.time

abbrev pub if_running : ℕ → Option ℕ → Option ℕ
if_running now none = none
if_running now (some t) = if ltb now t then some t else none

get_from-until :
    (now : ℕ) (nick : Bytes) (l : List IgnoreData)
    → time_of (get_from now nick l).0 ≡ if_running now (until nick l)
unfolding get_from until
get_from-until now nick [] = refl
get_from-until now nick (ign ∷ l) =
    ground (arith, irc_stricmp-stricmp ign.who nick, get_from-until now nick l)

put-same : (i : ℕ) (l : List IgnoreData) (ignore : Table) → put i l ignore i ≡ l
put-same i l ignore = ground arith

until-put :
    (i : ℕ) (l : List IgnoreData) (other : Bytes) (ignore : Table)
    → until other l ≡ until other (ignore i)
    → ignored_until other (put i l ignore) ≡ ignored_until other ignore
until-put i l other ignore h = ground (arith, h)

until-others :
    (now delta : ℕ) (nick other : Bytes) (l : List IgnoreData)
    → is_zero (stricmp nick other) ≡ false
    → until other (add_to now delta nick l) ≡ until other l
unfolding until add_to has_ignore renew
until-others now delta nick other [] h = rw h
until-others now delta nick other (ign ∷ l) h =
    ground (arith, h, stricmp_trans ign.who nick other, until-others now delta nick other l h)

get_from-others :
    (now : ℕ) (nick other : Bytes) (l : List IgnoreData)
    → is_zero (stricmp nick other) ≡ false
    → until other (get_from now nick l).1 ≡ until other l
unfolding until get_from
get_from-others now nick other [] h = refl
get_from-others now nick other (ign ∷ l) h = ground (
  arith,
  h,
  stricmp_trans ign.who nick other,
  irc_stricmp-stricmp ign.who nick,
  get_from-others now nick other l h,
)

ignored_until-add_ignore :
    (now delta : ℕ) (nick : Bytes) (ignore : Table)
    → length nick ≤ 31
    → ignored_until nick (add_ignore now nick delta ignore)
      ≡ some (prolonged now delta (ignored_until nick ignore))
unfolding add_ignore
ignored_until-add_ignore now delta nick ignore l =
    let i = whichlist nick in
    ap (until nick) (put-same i (add_to now delta (strscpy [] nick 32) (ignore i)) ignore)
    ∙ ap (λ who. until nick (add_to now delta who (ignore i))) (strscpy-short [] nick 31 l)
    ∙ until-add_to now delta nick (ignore i)

-- After add_ignore of a nick that fits into its buffer, get_ignore finds an entry for it exactly up
-- to the time that add_ignore computes, `delta` behind the time to which the nick was ignored
-- before, if that is still to come, or else behind the present; from then on it finds none.
pub get_ignore-add_ignore :
    (now later delta : ℕ) (nick : Bytes) (ignore : Table)
    → length nick ≤ 31
    → time_of (get_ignore later nick (add_ignore now nick delta ignore)).0
      ≡ if_running later (some (prolonged now delta (ignored_until nick ignore)))
unfolding get_ignore
get_ignore-add_ignore now later delta nick ignore l =
    get_from-until later nick (add_ignore now nick delta ignore (whichlist nick))
    ∙ ap (if_running later) (ignored_until-add_ignore now delta nick ignore l)

-- add_ignore changes nothing for a nick that differs, up to case, from the one it is for.
pub add_ignore-others :
    (now delta : ℕ) (nick other : Bytes) (ignore : Table)
    → length nick ≤ 31
    → is_zero (stricmp nick other) ≡ false
    → ignored_until other (add_ignore now nick delta ignore) ≡ ignored_until other ignore
unfolding add_ignore
add_ignore-others now delta nick other ignore l h =
    let i = whichlist nick in
    until-put i (add_to now delta (strscpy [] nick 32) (ignore i)) other ignore (
      ap (λ who. until other (add_to now delta who (ignore i))) (strscpy-short [] nick 31 l)
      ∙ until-others now delta nick other (ignore i) h)

-- get_ignore changes nothing for the other nicks.
pub get_ignore-others :
    (now : ℕ) (nick other : Bytes) (ignore : Table)
    → is_zero (stricmp nick other) ≡ false
    → ignored_until other (get_ignore now nick ignore).1 ≡ ignored_until other ignore
unfolding get_ignore
get_ignore-others now nick other ignore h =
    let i = whichlist nick in
    until-put i (get_from now nick (ignore i)).1 other ignore
      (get_from-others now nick other (ignore i) h)
