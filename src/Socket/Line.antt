-- ===== src/Socket/Line.antt =====
-- src/sockutil.c: `sgets` and `sgets2`, which read a line byte by byte. The source of the bytes is
-- a state with `sgetc`, which answers `none` for EOF; `lastchar` is always EOF, since nothing in
-- the program puts a byte back.
pub mod Reads
mod Examples
use oftc_blitzed.Base.{
  ℕ, zero, suc, ◌+◌, ◌-◌, ◌%◌, Bool, true, false, not, ◌&&◌, ◌||◌, List, [], ◌∷◌, ◌++◌, Option,
  none, some, Bytes, ltb, leb, ◌==◌, if◌then◌else◌, length,
}

-- What a call returns: NULL, (char *)-1 after a timeout, or the text that stands in `buf`.
pub data Line : Type 0 where
  broken : Line
  timed_out : Line
  line : Bytes → Line

-- `*ptr++ = c` stores EOF as the byte 255.
abbrev pub byte_of : Option ℕ → ℕ
byte_of none = 255
byte_of (some c) = c

-- The test `c < 0` behind the loop.
abbrev pub finish : Option ℕ → Line
finish none = broken
finish (some c) = line []

abbrev pub store_byte : ℕ → Line → Line
store_byte c broken = broken
store_byte c timed_out = timed_out
store_byte c (line xs) = line (c ∷ xs)

-- `(c = sgetc(s)) >= 0`: at EOF the loop is left, and `c < 0` makes the call return NULL.
pub go_on {ℓ} : {S : Type ℓ} → (Option ℕ → S → Line × S) → Option ℕ × S → Line × S
go_on loop (none, s) = (broken, s)
go_on loop (some d, s) = loop (some d) s

module _ {S : Type 0} (sgetc : S → Option ℕ × S) where
  -- The loop, with the value of `len` in front of the test and the character read last.
  pub sgets_loop : ℕ → Option ℕ → S → Line × S
  unfolding go_on
  sgets_loop zero c s = (finish c, s)
  sgets_loop (suc zero) c s = (finish c, s)
  sgets_loop (suc (suc n)) c s =
      let rest = go_on (sgets_loop (suc n)) (sgetc s) in
      if byte_of c == b'\n'
      then (store_byte (byte_of c) (finish c), s)
      else (store_byte (byte_of c) rest.0, rest.1)

  -- `idle` is set where nothing waits in the buffer and select() runs into `ReadTimeout`.
  unfoldable pub sgets : Bool → ℕ → S → Line × S
  unfolding sgets_loop
  sgets idle zero s = (broken, s)
  sgets idle (suc n) s =
      let (c, s') = sgetc s in if idle then (timed_out, s) else sgets_loop (suc n) c s'

-- The bytes in front of the first NUL.
unfoldable pub c_string : Bytes → Bytes
c_string [] = []
c_string (c ∷ xs) = if c == 0 then [] else c ∷ c_string xs

-- The last byte goes if it is c.
pub chop : ℕ → Bytes → Bytes
chop c [] = []
chop c (x ∷ []) = if x == c then [] else x ∷ []
chop c (x ∷ y ∷ xs) = x ∷ chop c (y ∷ xs)

-- The text ends at its first NUL; a newline at its end goes, then a carriage return. (Of an empty
-- text the source looks at the byte in front of the buffer; that byte is not part of the model.)
pub strip_line : Line → Line
unfolding c_string chop
strip_line broken = broken
strip_line timed_out = timed_out
strip_line (line xs) = line (chop b'\r' (chop b'\n' (c_string xs)))

unfoldable pub sgets2 : {S : Type 0} (sgetc : S → Option ℕ × S) → Bool → ℕ → S → Line × S
unfolding strip_line
sgets2 sgetc idle len s = let (r, s') = sgets sgetc idle len s in (strip_line r, s')
