-- ===== src/Sessions.antt =====
-- src/sessions.c: add_session and del_session on the table of sessions in the database. A host is a
-- number, equal where the database takes two hosts for the same; IRC_MATCH of the database and the
-- configuration are arguments. Counts are unsigned ints, with their wrap-around written out.
pub mod Limit
mod Examples
use oftc_blitzed.Base.{
  ℕ, ◌+◌, ◌-◌, ◌%◌, Bool, true, false, not, ◌&&◌, ◌||◌, List, [], ◌∷◌, Option, none, some, ◌==◌,
  if◌then◌else◌, ltb, leb, Bytes,
}

pub record Session : Type 0 where
  pub count : ℕ
  pub killcount : ℕ

abbrev pub Table : Type 0
Table = ℕ → Option Session

-- An exception: a mask, and the limit for the hosts that match it.
pub record Exception : Type 0 where
  pub mask : Bytes
  pub limit : ℕ

pub record Config : Type 0 where
  pub def_session_limit : ℕ
  pub session_kill_clues : ℕ
  pub irc_match : Bytes → ℕ → Bool

-- What becomes of the user: he may stay, he is killed, or his host is AKILLed.
pub data Outcome : Type 0 where
  accepted killed akilled : Outcome

abbrev pub word : ℕ
word = 4294967296

unfoldable pub put : ℕ → Session → Table → Table
put h s t k = if k == h then some s else t k

-- The rows of the join, in the order in which the exceptions come: the loop keeps the last one.
pub last_limit : Config → ℕ → ℕ → List Exception → ℕ
last_limit cfg h limit [] = limit
last_limit cfg h limit (x ∷ l) =
    last_limit cfg h (if cfg.irc_match x.mask h then x.limit else limit) l

pub session_limit : Config → List Exception → ℕ → ℕ
unfolding last_limit
session_limit cfg l h = last_limit cfg h cfg.def_session_limit l

pub refuse : Config → ℕ → Session → Session × Outcome
refuse cfg h s =
    let kills = (s.killcount + 1) % word in
    if not (cfg.session_kill_clues == 0) && ltb cfg.session_kill_clues kills
    then (record s { killcount = 0 }, akilled)
    else (record s { killcount = kills }, killed)

-- The row is there already.
pub add_to : Config → List Exception → ℕ → Session → Session × Outcome
unfolding session_limit refuse
add_to cfg l h s =
    let limit = session_limit cfg l h in
    if not (limit == 0) && leb limit s.count
    then refuse cfg h s
    else (record s { count = (s.count + 1) % word }, accepted)

pub add_session : Config → List Exception → ℕ → Table → Table × Outcome
unfolding put add_to
add_session cfg l h t = elim (t h) [
  | none ↦ (put h (record { count = 1; killcount = 0 }) t, accepted)
  | some s ↦ let (s', o) = add_to cfg l h s in (put h s' t, o)
]

-- "UPDATE session SET count=count-1": a host without a row changes nothing.
pub del_session : ℕ → Table → Table
unfolding put
del_session h t = elim (t h) [
  | none ↦ t
  | some s ↦ put h (record s { count = (s.count + word - 1) % word }) t
]
