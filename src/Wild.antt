-- ===== src/Wild.antt =====
-- src/misc.c: match_wild and match_wild_nocase, which match a string to a pattern with `*` and `?`.
pub mod Pattern
pub mod Complete
mod Examples
use oftc_blitzed.Base.{ℕ, Bool, true, false, ◌&&◌, List, [], ◌∷◌, ◌==◌, if◌then◌else◌, Bytes}
use oftc_blitzed.Text.{tolower}

-- The comparison of one byte, case-sensitive where `docase` is set.
unfoldable pub same : Bool → ℕ → ℕ → Bool
unfolding tolower
same docase a b = if docase then a == b else tolower a == tolower b

-- The inner loop of a star: from left to right, each place whose byte passes `hit`.
unfoldable pub try_suffixes : (ℕ → Bool) → (Bytes → Bool) → Bytes → Bool
try_suffixes hit rest [] = false
try_suffixes hit rest (c ∷ s) = if hit c && rest (c ∷ s) then true else try_suffixes hit rest s

-- After the loop the `switch` is left, and the outer loop goes on at the same place of the string.
unfoldable pub after_star : Bool → Bytes → (Bytes → Bool) → Bytes → Bool
unfolding try_suffixes same
after_star docase [] rest str = true
after_star docase (d ∷ p) rest str =
    if try_suffixes (λ c. same docase c d) rest str then true else rest str

unfoldable pub after_any : (Bytes → Bool) → Bytes → Bool
after_any rest [] = false
after_any rest (d ∷ s) = rest s

unfoldable pub after_byte : Bool → ℕ → (Bytes → Bool) → Bytes → Bool
unfolding same
after_byte docase c rest [] = false
after_byte docase c rest (d ∷ s) = if same docase d c then rest s else false

unfoldable pub do_match_wild : Bool → Bytes → Bytes → Bool
unfolding after_star after_any after_byte
do_match_wild docase [] [] = true
do_match_wild docase [] (d ∷ s) = false
do_match_wild docase (c ∷ p) str =
    if c == b'?'
    then after_any (do_match_wild docase p) str
    else if c == b'*'
    then after_star docase p (do_match_wild docase p) str
    else after_byte docase c (do_match_wild docase p) str

unfoldable pub match_wild : Bytes → Bytes → Bool
unfolding do_match_wild
match_wild pattern str = do_match_wild true pattern str

unfoldable pub match_wild_nocase : Bytes → Bytes → Bool
unfolding do_match_wild
match_wild_nocase pattern str = do_match_wild false pattern str
