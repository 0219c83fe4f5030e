-- ===== src/Text.antt =====
-- src/misc.c and src/compat.c: case folding, comparison, copying and searching of C strings.
-- toupper and tolower answer an unsigned char, so that bytes compare as numbers from 0 to 255.
pub mod Fold
pub mod Search
mod Examples
use oftc_blitzed.Base.{
  ℕ, ◌+◌, ◌-◌, Bool, true, false, ◌&&◌, ◌||◌, List, [], ◌∷◌, Ordering, ltb, leb, ◌==◌,
  if◌then◌else◌, Bytes, arith, zero, suc, take, Option, none, some,
}

-- `islower` and `isupper` of <ctype.h> in the C locale.
abbrev pub islower : ℕ → Bool
islower c = leb b'a' c && leb c b'z'

abbrev pub isupper : ℕ → Bool
isupper c = leb b'A' c && leb c b'Z'

pub toupper : ℕ → ℕ
toupper c = if islower c then c - (b'a' - b'A') else c

unfoldable pub tolower : ℕ → ℕ
tolower c = if isupper c then c + (b'a' - b'A') else c

pub irc_toupper : ℕ → ℕ
irc_toupper c =
    if leb b'a' c && leb c b'z' || leb b'{' c && leb c b'}' then c - (b'a' - b'A') else c

pub irc_tolower : ℕ → ℕ
irc_tolower c =
    if leb b'A' c && leb c b'Z' || leb b'[' c && leb c b']' then c + (b'a' - b'A') else c

-- The results -1, 0 and 1 are `lt`, `eq` and `gt`. A string that ends reads the NUL.
unfoldable pub irc_stricmp : Bytes → Bytes → Ordering
irc_stricmp [] [] = Ordering.eq
irc_stricmp [] (d ∷ t) = Ordering.lt
irc_stricmp (c ∷ s) [] = Ordering.gt
irc_stricmp (c ∷ s) (d ∷ t) =
    if tolower c == tolower d
    then irc_stricmp s t
    else if ltb (tolower c) (tolower d)
    then Ordering.lt
    else Ordering.gt

pub strupper : Bytes → Bytes
strupper [] = []
strupper (c ∷ s) = toupper c ∷ strupper s

unfoldable pub strlower : Bytes → Bytes
strlower [] = []
strlower (c ∷ s) = tolower c ∷ strlower s

-- stricmp of src/compat.c; with a strcasecmp at hand the program takes that one instead.
unfoldable pub stricmp : Bytes → Bytes → Ordering
stricmp [] [] = Ordering.eq
stricmp [] (d ∷ t) = Ordering.lt
stricmp (c ∷ s) [] = Ordering.gt
stricmp (c ∷ s) (d ∷ t) =
    if tolower c == tolower d
    then stricmp s t
    else if ltb (tolower c) (tolower d)
    then Ordering.lt
    else Ordering.gt

-- The tests `== 0` on the result of a comparison.
abbrev pub is_zero : Ordering → Bool
is_zero Ordering.eq = true
is_zero Ordering.lt = false
is_zero Ordering.gt = false

-- strcmp(s, t) == 0
abbrev pub str_eq : Bytes → Bytes → Bool
str_eq [] [] = true
str_eq [] (d ∷ t) = false
str_eq (c ∷ s) [] = false
str_eq (c ∷ s) (d ∷ t) = if c == d then str_eq s t else false

-- strscpy(d, s, len): at most len - 1 bytes. With a length of 0 the buffer stays as it is.
unfoldable pub strscpy : Bytes → Bytes → ℕ → Bytes
strscpy d s zero = d
strscpy d s (suc len) = take len s

-- The loop of stristr: the place where the match began, the rest of the string, and the rest of
-- what is looked for. A mismatch goes on behind the byte that did not fit.
pub search : Bytes → Bytes → Bytes → Bytes → Option Bytes
unfolding tolower
search s2 s [] d = none
search s2 s (c ∷ s1) [] = search s2 s1 s1 s2
search s2 s (c ∷ s1) (e ∷ d) =
    let go_on = search s2 s s1 d in
    let again = search s2 s1 s1 s2 in
    if tolower c == tolower e then elim d [ [] ↦ some s | _ ∷ _ ↦ go_on ] else again

pub stristr : Bytes → Bytes → Option Bytes
unfolding search
stristr s1 s2 = search s2 s1 s1 s2
