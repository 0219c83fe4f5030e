-- ===== src/Socket/Line/Reads.antt =====
-- What `sgets` and `sgets2` make of the bytes that arrive.
use oftc_blitzed.Base.{
  ℕ, zero, suc, ◌+◌, ◌≤◌, ◌<◌, ◌≡◌, refl, ◌≢◌, subst, ap, ◌∙◌, false, List, [], ◌∷◌, ◌++◌, arith,
  Bytes, length, Option, some, none, All, length-append,
}
use oftc_blitzed.Socket.Line.{line, byte_of, sgets_loop, sgets, c_string, chop, strip_line, sgets2}

module _ {S : Type 0} (sgetc : S → Option ℕ × S) where
  -- From the state s the source hands out these bytes, one for each call, and is then in state t.
  abbrev pub Delivers : S → Bytes → S → Type 0
  Delivers s [] t = s ≡ t
  Delivers s (x ∷ xs) t = (m : S) × (sgetc s ≡ (some x, m)) × Delivers m xs t

  newline_ends :
      (n : ℕ) (s : S) → sgets_loop sgetc (suc (suc n)) (some b'\n') s ≡ (line (b'\n' ∷ []), s)
  unfolding sgets_loop
  newline_ends n s = refl

  byte_goes_on :
      (n : ℕ) (c : Option ℕ) (d : ℕ) (s m : S)
      → byte_of c ≢ b'\n'
      → sgetc s ≡ (some d, m)
      → (xs : Bytes) (t : S) → sgets_loop sgetc (suc n) (some d) m ≡ (line xs, t)
      → sgets_loop sgetc (suc (suc n)) c s ≡ (line (byte_of c ∷ xs), t)
  unfolding sgets_loop
  byte_goes_on n c d s m h e xs t ih = rw (e, ih) (ground arith)

  loop_reads :
      (n : ℕ) (c : Option ℕ) (xs : Bytes) (s t : S)
      → byte_of c ≢ b'\n'
      → All (λ x. x ≢ b'\n') xs
      → length xs < n
      → Delivers s (xs ++ b'\n' ∷ []) t
      → sgets_loop sgetc (suc (suc n)) c s ≡ (line (byte_of c ∷ xs ++ b'\n' ∷ []), t)
  loop_reads zero c xs s t h a l d = absurd (omega arith)
  loop_reads (suc n) c [] s t h a l (m, e, d) =
      byte_goes_on (suc n) c b'\n' s m h e (b'\n' ∷ []) t (
        subst (λ z. sgets_loop sgetc (suc (suc n)) (some b'\n') m ≡ (line (b'\n' ∷ []), z)) d
          (newline_ends n m))
  loop_reads (suc n) c (x ∷ xs) s t h a l (m, e, d) =
      byte_goes_on (suc n) c x s m h e (x ∷ xs ++ b'\n' ∷ []) t
        (loop_reads n (some x) xs m t a.0 a.1 (omega arith) d)

  -- A line that fits into the buffer is returned whole, with its newline, and the source is left
  -- right behind it.
  pub sgets-reads :
      (len : ℕ) (xs : Bytes) (s t : S)
      → All (λ x. x ≢ b'\n') xs
      → length xs + 2 ≤ len
      → Delivers s (xs ++ b'\n' ∷ []) t
      → sgets sgetc false len s ≡ (line (xs ++ b'\n' ∷ []), t)
  unfolding sgets
  sgets-reads zero xs s t a l d = absurd (omega arith)
  sgets-reads (suc zero) xs s t a l d = absurd (omega arith)
  sgets-reads (suc (suc n)) [] s t a l (m, e, d) = rw e (
      subst (λ z. sgets_loop sgetc (suc (suc n)) (some b'\n') m ≡ (line (b'\n' ∷ []), z)) d
        (newline_ends n m))
  sgets-reads (suc (suc n)) (x ∷ xs) s t a l (m, e, d) =
      rw e (loop_reads n (some x) xs m t a.0 a.1 (omega arith) d)

  last_byte_lost : (x : ℕ) (s t : S) → s ≡ t → sgets_loop sgetc 1 (some x) s ≡ (line [], t)
  unfolding sgets_loop
  last_byte_lost x s t e = rw e

  loop_cuts :
      (c : Option ℕ) (xs : Bytes) (x : ℕ) (s t : S)
      → byte_of c ≢ b'\n'
      → All (λ x. x ≢ b'\n') xs
      → Delivers s (xs ++ x ∷ []) t
      → sgets_loop sgetc (suc (suc (length xs))) c s ≡ (line (byte_of c ∷ xs), t)
  loop_cuts c [] x s t h a (m, e, d) = byte_goes_on 0 c x s m h e [] t (last_byte_lost x m t d)
  loop_cuts c (y ∷ ys) x s t h a (m, e, d) =
      byte_goes_on (suc (length ys)) c y s m h e (y ∷ ys) t (loop_cuts (some y) ys x m t a.0 a.1 d)

  -- The bytes of a line that fills the buffer are returned, and the byte read after them is lost.
  pub sgets-cuts :
      (len : ℕ) (xs : Bytes) (x : ℕ) (s t : S)
      → All (λ c. c ≢ b'\n') xs
      → length xs + 1 ≡ len
      → Delivers s (xs ++ x ∷ []) t
      → sgets sgetc false len s ≡ (line xs, t)
  unfolding sgets
  sgets-cuts len [] x s t a l (m, e, d) =
      let one : len ≡ 1 = omega arith in rw (one, sgets, e) (last_byte_lost x m t d)
  sgets-cuts len (y ∷ ys) x s t a l (m, e, d) =
      let more : len ≡ suc (suc (length ys)) = omega arith in
      rw (more, sgets, e) (loop_cuts (some y) ys x m t a.0 a.1 d)

  -- If the first read meets EOF and the source then delivers a line, the text starts with a byte
  -- 255 that nobody sent.
  pub sgets-eof_first :
      (len : ℕ) (xs : Bytes) (s m t : S)
      → sgetc s ≡ (none, m)
      → All (λ c. c ≢ b'\n') xs
      → length xs + 3 ≤ len
      → Delivers m (xs ++ b'\n' ∷ []) t
      → sgets sgetc false len s ≡ (line (255 ∷ xs ++ b'\n' ∷ []), t)
  unfolding sgets
  sgets-eof_first zero xs s m t e a l d = absurd (omega arith)
  sgets-eof_first (suc zero) xs s m t e a l d = absurd (omega arith)
  sgets-eof_first (suc (suc n)) xs s m t e a l d =
      rw e (loop_reads n none xs m t (omega arith) a (omega arith) d)

abbrev pub NoStops : Bytes → Type 0
NoStops = All (λ c. (c ≢ 0) × (c ≢ b'\n') × (c ≢ b'\r'))

c_string-All : (xs : Bytes) → All (λ c. c ≢ 0) xs → c_string xs ≡ xs
unfolding c_string
c_string-All [] a = refl
c_string-All (x ∷ xs) a = ground (arith, c_string-All xs a.1)

chop-append : (c : ℕ) (xs : Bytes) → chop c (xs ++ c ∷ []) ≡ xs
unfolding chop
chop-append c [] = ground arith
chop-append c (x ∷ []) = ground arith
chop-append c (x ∷ y ∷ xs) = ap (λ t. x ∷ t) (chop-append c (y ∷ xs))

All-weaken {ℓ} :
    {A : Type ℓ} (P Q : A → Type 0) (xs : List A) → ((x : A) → P x → Q x) → All P xs → All Q xs
All-weaken P Q [] f a = tt
All-weaken P Q (x ∷ xs) f a = (f x a.0, All-weaken P Q xs f a.1)

All-snoc {ℓ} :
    {A : Type ℓ} (P : A → Type 0) (xs : List A) (y : A) → All P xs → P y → All P (xs ++ y ∷ [])
All-snoc P [] y a p = (p, tt)
All-snoc P (x ∷ xs) y a p = (a.0, All-snoc P xs y a.1 p)

stripped :
    (xs : Bytes)
    → NoStops xs
    → chop b'\r' (chop b'\n' (c_string ((xs ++ b'\r' ∷ []) ++ b'\n' ∷ []))) ≡ xs
stripped xs a =
    let clean = All-weaken _ (λ c. c ≢ 0) xs (λ c h. h.0) a in
    let clean' =
      All-snoc (λ c. c ≢ 0) _ b'\n' (All-snoc (λ c. c ≢ 0) xs b'\r' clean (omega arith))
        (omega arith) in
    rw (c_string-All _ clean', chop-append b'\n' (xs ++ b'\r' ∷ []), chop-append b'\r' xs)

-- A line of the protocol, which ends in a carriage return and a newline and fits into the buffer,
-- comes out of `sgets2` without the two, and the source is left right behind it.
pub sgets2-reads :
    {S : Type 0} (sgetc : S → Option ℕ × S) (len : ℕ) (xs : Bytes) (s t : S)
    → NoStops xs
    → length xs + 3 ≤ len
    → Delivers sgetc s ((xs ++ b'\r' ∷ []) ++ b'\n' ∷ []) t
    → sgets2 sgetc false len s ≡ (line xs, t)
unfolding sgets2
sgets2-reads sgetc len xs s t a l d =
    let ys = xs ++ b'\r' ∷ [] in
    let plain =
      All-snoc (λ c. c ≢ b'\n') xs b'\r' (All-weaken _ (λ c. c ≢ b'\n') xs (λ c h. h.1) a)
        (omega arith) in
    let whole =
      sgets-reads sgetc len ys s t plain (omega (arith, length-append xs (b'\r' ∷ []))) d in
    ap (λ r. (strip_line r.0, r.1)) whole ∙ ap (λ z. (line z, t)) (stripped xs a)
