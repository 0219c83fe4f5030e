-- ===== src/Process.antt =====
-- src/process.c: process, which takes a line from the server apart, split_buf, and the list of
-- ignored nicks. find_message and the handlers behind it are no part of this: what is modelled is
-- the message that they are called with.
pub mod Lines
pub mod Ignore
mod Examples
use oftc_blitzed.Base.{
  ℕ, zero, suc, Bool, true, false, ◌&&◌, ◌||◌, List, [], ◌∷◌, Option, none, some, ◌==◌,
  if◌then◌else◌, leb, Bytes, length,
}
use oftc_blitzed.Text.{strscpy}

-- isspace() of the C locale.
unfoldable pub isspace : ℕ → Bool
isspace c = c == 32 || leb 9 c && leb c 13

pub skip_spaces : Bytes → Bytes
unfolding isspace
skip_spaces [] = []
skip_spaces (c ∷ s) = if isspace c then skip_spaces s else c ∷ s

-- What stands in front of the first space.
pub word_of : Bytes → Bytes
word_of [] = []
word_of (c ∷ s) = if c == b' ' then [] else c ∷ word_of s

-- What stands behind the first space, and behind all white space there.
pub after_word : Bytes → Option Bytes
unfolding skip_spaces
after_word [] = none
after_word (c ∷ s) = if c == b' ' then some (skip_spaces s) else after_word s

abbrev pub or_end : Option Bytes → Bytes
or_end none = []
or_end (some s) = s

-- A turn of the loop takes a parameter off; the length of the buffer is fuel enough.
pub split_buf : ℕ → Bytes → List Bytes
unfolding word_of after_word
split_buf fuel [] = []
split_buf zero (c ∷ s) = []
split_buf (suc fuel) (c ∷ s) =
    let rest = split_buf fuel (or_end (after_word (c ∷ s))) in
    if c == b':' then s ∷ [] else word_of (c ∷ s) ∷ rest

-- What a handler is called with.
pub record Message : Type 0 where
  pub source : Bytes
  pub cmd : Bytes
  pub av : List Bytes

-- A first byte of -1 is skipped.
abbrev pub skip_weird : Bytes → Bytes
skip_weird [] = []
skip_weird (c ∷ s) = if c == 255 then s else c ∷ s

-- The sender, and what stands behind it; none if nothing does.
pub split_source : Bytes → Option (Bytes × Bytes)
unfolding word_of after_word
split_source [] = some ([], [])
split_source (c ∷ s) =
    if c == b':'
    then elim (after_word (c ∷ s)) [
      | none ↦ none
      | some rest ↦ some (strscpy [] (word_of s) 64, rest)
    ]
    else some ([], c ∷ s)

pub split_command : Bytes → Bytes → Option Message
unfolding word_of after_word split_buf
split_command source [] = none
split_command source (c ∷ s) =
    let rest = or_end (after_word (c ∷ s)) in
    some (record {
      source = source;
      cmd = strscpy [] (word_of (c ∷ s)) 64;
      av = split_buf (length rest) rest;
    })

abbrev pub split_rest : Option (Bytes × Bytes) → Option Message
split_rest none = none
split_rest (some (source, buf)) = split_command source buf

-- The message in a line, if there is one.
pub process : Bytes → Option Message
unfolding split_source split_command
process inbuf = split_rest (split_source (strscpy [] (skip_weird inbuf) 512))
