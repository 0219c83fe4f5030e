-- ===== src/Process/Lines.antt =====
-- Lines that are put together from a sender, a command and parameters come apart again.
use oftc_blitzed.Base.{
  ℕ, zero, suc, ◌≤◌, ◌≡◌, ◌≢◌, refl, ap, ◌∙◌, false, List, [], ◌∷◌, ◌++◌, Option, none, some, arith,
  ◌==◌, Bytes, length, All, take, length-append,
}
use oftc_blitzed.Text.{strscpy}
use oftc_blitzed.Process.{
  isspace, skip_spaces, word_of, after_word, or_end, split_buf, split_source, split_command,
  split_rest, process,
}

-- A parameter in front of the last: not empty, without a space, and no colon or white space first.
abbrev pub IsWord : Bytes → Type 0
IsWord [] = ⊥
IsWord (c ∷ w) = (c ≢ b':') × (isspace c ≡ false) × All (λ d. d ≢ b' ') w

abbrev pub spaced : Bytes → Bytes
spaced [] = []
spaced (c ∷ s) = b' ' ∷ c ∷ s

-- The parameters as they stand in a line: a last one behind a colon may hold anything.
abbrev pub print_args : List Bytes → Option Bytes → Bytes
print_args [] none = []
print_args [] (some t) = b':' ∷ t
print_args (w ∷ ws) last = w ++ spaced (print_args ws last)

abbrev pub with_last : List Bytes → Option Bytes → List Bytes
with_last ws none = ws
with_last ws (some t) = ws ++ t ∷ []

word_of-spaced : (w r : Bytes) → All (λ d. d ≢ b' ') w → word_of (w ++ spaced r) ≡ w
unfolding word_of
word_of-spaced [] [] h = refl
word_of-spaced [] (c ∷ r) h = refl
word_of-spaced (d ∷ w) r (n, h) = ground (arith, n, word_of-spaced w r h)

after_word-spaced :
    (w r : Bytes) → All (λ d. d ≢ b' ') w → or_end (after_word (w ++ spaced r)) ≡ skip_spaces r
unfolding after_word skip_spaces
after_word-spaced [] [] h = refl
after_word-spaced [] (c ∷ r) h = refl
after_word-spaced (d ∷ w) r (n, h) = ground (arith, n, after_word-spaced w r h)

skip_spaces-print_args :
    (ws : List Bytes) (last : Option Bytes)
    → All IsWord ws
    → skip_spaces (print_args ws last) ≡ print_args ws last
unfolding skip_spaces isspace
skip_spaces-print_args [] none h = refl
skip_spaces-print_args [] (some t) h = refl
skip_spaces-print_args ([] ∷ ws) last (b, h) = absurd b
skip_spaces-print_args ((c ∷ w) ∷ ws) last ((n, s, a), h) = rw s

space_free :
    (c : ℕ) (w : Bytes) → isspace c ≡ false → All (λ d. d ≢ b' ') w → All (λ d. d ≢ b' ') (c ∷ w)
unfolding isspace
space_free c w s a = ((λ e. ground (arith, s, e)), a)

ne_false : (c d : ℕ) → c ≢ d → (c == d) ≡ false
ne_false c d n = ground arith

with_last-cons :
    (w : Bytes) (ws : List Bytes) (last : Option Bytes)
    → with_last (w ∷ ws) last ≡ w ∷ with_last ws last
with_last-cons w ws none = refl
with_last-cons w ws (some t) = refl

length-spaced : (p : Bytes) → length p ≤ length (spaced p)
length-spaced [] = omega arith
length-spaced (c ∷ p) = omega arith

shorter : (c : ℕ) (w p : Bytes) (n : ℕ) → length (c ∷ w ++ spaced p) ≤ suc n → length p ≤ n
shorter c w p n l = omega (arith, l, length-append w (spaced p), length-spaced p)

split_buf-end : (n : ℕ) → split_buf n [] ≡ []
unfolding split_buf
split_buf-end zero = refl
split_buf-end (suc n) = refl

-- split_buf takes a list of parameters apart that was put together with spaces, the last one behind
-- a colon if it is to hold anything at all, and gives the same parameters; the length of the buffer
-- is fuel enough.
pub split_buf-print_args :
    (n : ℕ) (ws : List Bytes) (last : Option Bytes)
    → All IsWord ws
    → length (print_args ws last) ≤ n
    → split_buf n (print_args ws last) ≡ with_last ws last
unfolding split_buf
split_buf-print_args n [] none h l = split_buf-end n
split_buf-print_args n ([] ∷ ws) last (b, h) l = absurd b
split_buf-print_args zero [] (some t) h l = ground arith
split_buf-print_args zero ((c ∷ w) ∷ ws) last h l = ground arith
split_buf-print_args (suc n) [] (some t) h l = refl
split_buf-print_args (suc n) ((c ∷ w) ∷ ws) last ((k, s, a), h) l =
    let p = print_args ws last in
    let e : or_end (after_word (c ∷ w ++ spaced p)) ≡ p =
      after_word-spaced (c ∷ w) p (space_free c w s a) ∙ skip_spaces-print_args ws last h in
    let f = word_of-spaced (c ∷ w) p (space_free c w s a) in
    let i = split_buf-print_args n ws last h (shorter c w p n l) in
    rw (ne_false c 58 k, e, f, i, with_last-cons (c ∷ w) ws last)

-- A message as it stands in a line, with its sender.
abbrev pub print_message : Bytes → Bytes → List Bytes → Option Bytes → Bytes
print_message source cmd ws last = b':' ∷ source ++ spaced (cmd ++ spaced (print_args ws last))

pub take-short : (n : ℕ) (s : Bytes) → length s ≤ n → take n s ≡ s
take-short zero [] l = refl
take-short (suc n) [] l = refl
take-short zero (c ∷ s) l = ground arith
take-short (suc n) (c ∷ s) l = rw (take-short n s (omega (arith, l)))

pub strscpy-short : (d s : Bytes) (n : ℕ) → length s ≤ n → strscpy d s (suc n) ≡ s
unfolding strscpy
strscpy-short d s n l = take-short n s l

split_command-print :
    (source cmd : Bytes) (ws : List Bytes) (last : Option Bytes)
    → IsWord cmd
    → All IsWord ws
    → length cmd ≤ 63
    → split_command source (cmd ++ spaced (print_args ws last))
      ≡ some (record { source = source; cmd = cmd; av = with_last ws last })
unfolding split_command
split_command-print source [] ws last b h l = absurd b
split_command-print source (c ∷ w) ws last (k, s, a) h l =
    let p = print_args ws last in
    let e : or_end (after_word (c ∷ w ++ spaced p)) ≡ p =
      after_word-spaced (c ∷ w) p (space_free c w s a) ∙ skip_spaces-print_args ws last h in
    let f = word_of-spaced (c ∷ w) p (space_free c w s a) in
    rw
      (e, f, strscpy-short [] (c ∷ w) 63 l, split_buf-print_args (length p) ws last h (omega arith))

after_word-some :
    (w r : Bytes) (c : ℕ)
    → All (λ d. d ≢ b' ') w
    → isspace c ≡ false
    → after_word (w ++ spaced (c ∷ r)) ≡ some (c ∷ r)
unfolding after_word skip_spaces
after_word-some [] r c h s = rw s
after_word-some (d ∷ w) r c (n, h) s = ground (arith, n, after_word-some w r c h s)

split_source-print :
    (source r : Bytes) (c : ℕ)
    → All (λ d. d ≢ b' ') source
    → length source ≤ 63
    → isspace c ≡ false
    → split_source (b':' ∷ source ++ spaced (c ∷ r)) ≡ some (source, c ∷ r)
unfolding split_source
split_source-print source r c o l s = rw (
  after_word-some (b':' ∷ source) r c ((λ e. ground (arith, e)), o) s,
  word_of-spaced source (c ∷ r) o,
  strscpy-short [] source 63 l,
)

-- A line with a sender, a command and parameters that are joined by single spaces comes out of
-- process as just these, if it fits into the buffers: below 512 bytes in all and below 64 for the
-- sender and the command each.
pub process-print_message :
    (source cmd : Bytes) (ws : List Bytes) (last : Option Bytes)
    → All (λ d. d ≢ b' ') source
    → IsWord cmd
    → All IsWord ws
    → length source ≤ 63
    → length cmd ≤ 63
    → length (print_message source cmd ws last) ≤ 511
    → process (print_message source cmd ws last)
      ≡ some (record { source = source; cmd = cmd; av = with_last ws last })
unfolding process
process-print_message source [] ws last o b h l m n = absurd b
process-print_message source (c ∷ w) ws last o k h l m n =
    let p = spaced (print_args ws last) in
    ap (λ x. split_rest (split_source x))
      (strscpy-short [] (b':' ∷ source ++ spaced (c ∷ w ++ p)) 511 n)
    ∙ ap split_rest (split_source-print source (w ++ p) c o l k.1)
    ∙ split_command-print source (c ∷ w) ws last k h m
