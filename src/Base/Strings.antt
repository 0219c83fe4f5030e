-- ===== src/Base/Strings.antt =====
-- C strings: the list of the bytes in front of the terminating NUL.
use Prim.Native.Nat.{ℕ, ◌<◌}
use Prim.Native.Char.{code}
use Prim.Native.String.{String}
use mathlib.Core.Logic.{◌≢◌}
use mathlib.Core.List.{List, [], ◌∷◌}
use oftc_blitzed.Base.Lists.{All}

abbrev pub Bytes : Type 0
Bytes = List ℕ

-- The bytes of an ASCII text.
abbrev pub codes : String → Bytes
codes String.[] = []
codes (String.◌∷◌ c s) = code c ∷ codes s

-- No byte of a C string is the terminator, and each fits in eight bits.
abbrev pub IsText : Bytes → Type 0
IsText = All (λ c. (c ≢ 0) × (c < 256))
