-- ===== src/Channel/Table.antt =====
-- src/channels.c: the hash table of the channels, and the walk over it by firstchan and nextchan,
-- whose place is kept between the calls. A channel stands here for its node with all behind it.
pub mod Walk
mod Examples
use oftc_blitzed.Base.{
  ℕ, zero, suc, ◌+◌, ◌*◌, ◌%◌, ◌-◌, Bool, true, false, ◌&&◌, List, [], ◌∷◌, Option, none, some,
  ◌==◌, if◌then◌else◌, ltb, Bytes,
}
use oftc_blitzed.Text.{irc_stricmp, is_zero}
use oftc_blitzed.Channel.Defs.{Channel}

abbrev pub Table : Type 0
Table = ℕ → List Channel

-- `current` is the node with the nodes behind it, [] for NULL.
pub record Cursor : Type 0 where
  pub current : List Channel
  pub next_index : ℕ

abbrev pub is_null : List Channel → Bool
is_null [] = true
is_null (c ∷ l) = false

-- `while (next_index < 1024 && current == NULL)`: one turn for each bucket that is left.
pub scan : ℕ → Table → Cursor → Cursor
scan zero chanlist k = k
scan (suc n) chanlist k =
    let on =
      scan n chanlist (record { current = chanlist k.next_index; next_index = k.next_index + 1 }) in
    if ltb k.next_index 1024 && is_null k.current then on else k

-- The next index starts at 0; `current` is what the last walk has left.
pub firstchan : Table → Cursor → Cursor
unfolding scan
firstchan chanlist k = scan 1024 chanlist (record k { next_index = 0 })

abbrev pub behind : List Channel → List Channel
behind [] = []
behind (c ∷ l) = l

pub nextchan : Table → Cursor → Cursor
unfolding scan
nextchan chanlist k = scan 1024 chanlist (record k { current = behind k.current })

-- The channels that `for (c = firstchan(); c; c = nextchan())` sees, from a place on.
pub visit : ℕ → Table → Cursor → List Channel
visit zero chanlist k = []
visit (suc n) chanlist k = elim k.current [
  | [] ↦ []
  | c ∷ l ↦ c ∷ visit n chanlist (nextchan chanlist k)
]

-- HASH
abbrev pub hash : Bytes → ℕ
hash (a ∷ b ∷ c ∷ s) = (b % 32) * 32 + c % 32
hash (a ∷ b ∷ []) = (b % 32) * 32
hash s = 0

pub find_in : Bytes → List Channel → Option Channel
find_in chan [] = none
find_in chan (c ∷ l) = if is_zero (irc_stricmp c.name chan) then some c else find_in chan l

pub findchan : Table → Bytes → Option Channel
unfolding find_in
findchan chanlist chan = find_in chan (chanlist (hash chan))
