-- ===== src/Socket/Memory.antt =====
-- The array behind a buffer, as a function from offsets to bytes. A pointer into the array is its
-- offset from the start (`read_netbuf`, `write_netbuf`); the end (`buftop`) is `net_bufsize`.
use oftc_blitzed.Base.{
  ℕ, zero, suc, ◌+◌, ◌-◌, ◌^◌, ◌≤◌, ◌<◌, ◌≡◌, refl, ap, ap₂, sym, subst, ◌∙◌, true, false, [], ◌∷◌,
  ◌++◌, arith, Bytes, ◌==◌, if◌then◌else◌, length, leb, ltb, ◌⊎◌, inl, inr, length-append,
  append-nil, append_assoc,
}

-- NET_BUFSIZE of include/config.h.
abbrev pub net_bufsize : ℕ
net_bufsize = 65536

-- What `size_t` makes of the -1 by which read() and write() report an error.
abbrev pub size_error : ℕ
size_error = 2 ^ 64 - 1

abbrev pub Memory : Type 0
Memory = ℕ → ℕ

abbrev pub store : Memory → ℕ → ℕ → Memory
store f p x i = if i == p then x else f i

unfoldable pub memcpy : Memory → ℕ → Bytes → Memory
memcpy f p [] = f
memcpy f p (x ∷ xs) = memcpy (store f p x) (p + 1) xs

-- The n bytes from offset p on.
unfoldable pub slice : Memory → ℕ → ℕ → Bytes
slice f p zero = []
slice f p (suc n) = f p ∷ slice f (p + 1) n

pub length-slice : (f : Memory) (p n : ℕ) → length (slice f p n) ≡ n
unfolding slice
length-slice f p zero = refl
length-slice f p (suc n) = ap suc (length-slice f (p + 1) n)

pub slice-suc : (f : Memory) (p n : ℕ) → slice f p (suc n) ≡ f p ∷ slice f (p + 1) n
unfolding slice
slice-suc f p n = refl

pub slice-one : (f : Memory) (p : ℕ) → slice f p 1 ≡ f p ∷ []
unfolding slice
slice-one f p = refl

pub slice-add : (f : Memory) (p m n : ℕ) → slice f p (m + n) ≡ slice f p m ++ slice f (p + m) n
unfolding slice
slice-add f p zero n = ground arith
slice-add f p (suc m) n =
    let e : suc m + n ≡ suc (m + n) = omega arith in
    let e' : p + suc m ≡ p + 1 + m = omega arith in
    rw (e, e') (ap (λ t. f p ∷ t) (slice-add f (p + 1) m n))

pub memcpy-outside :
    (f : Memory) (p : ℕ) (xs : Bytes) (i : ℕ)
    → (i < p) ⊎ (p + length xs ≤ i)
    → memcpy f p xs i ≡ f i
unfolding memcpy
memcpy-outside f p [] i h = refl
memcpy-outside f p (x ∷ xs) i h = ground (arith, memcpy-outside (store f p x) (p + 1) xs i)

pub slice-memcpy_outside :
    (f : Memory) (p : ℕ) (xs : Bytes) (q n : ℕ)
    → (q + n ≤ p) ⊎ (p + length xs ≤ q)
    → slice (memcpy f p xs) q n ≡ slice f q n
unfolding slice
slice-memcpy_outside f p xs q zero h = refl
slice-memcpy_outside f p xs q (suc n) h =
    ground (arith, memcpy-outside f p xs q, slice-memcpy_outside f p xs (q + 1) n)

pub slice-memcpy : (f : Memory) (p : ℕ) (xs : Bytes) → slice (memcpy f p xs) p (length xs) ≡ xs
unfolding slice memcpy
slice-memcpy f p [] = refl
slice-memcpy f p (x ∷ xs) =
    ground (arith, memcpy-outside (store f p x) (p + 1) xs p, slice-memcpy (store f p x) (p + 1) xs)

-- The bytes of a circular buffer, from the next one out to the last one in.
unfoldable pub queued : Memory → ℕ → ℕ → Bytes
queued f cur end =
    if leb cur end
    then slice f cur (end - cur)
    else slice f cur (net_bufsize - cur) ++ slice f 0 end

-- The number that `read_buffer_len` and `write_buffer_len` return.
unfoldable pub buffer_len : ℕ → ℕ → ℕ
buffer_len cur end = if leb cur end then end - cur else end + net_bufsize - cur

pub length-queued :
    (f : Memory) (cur end : ℕ) → cur < net_bufsize → length (queued f cur end) ≡ buffer_len cur end
unfolding queued buffer_len
length-queued f cur end h = ground (
  arith,
  length-slice f cur (end - cur),
  length-slice f cur (net_bufsize - cur),
  length-slice f 0 end,
  length-append (slice f cur (net_bufsize - cur)) (slice f 0 end),
)

-- Bytes stored at the end of the buffer join the queue. First where they do not reach the array's
-- end, then behind the wrap, then where they end exactly at the array's end.
pub queued-memcpy_below :
    (f : Memory) (cur end : ℕ) (xs : Bytes)
    → cur ≤ end
    → queued (memcpy f end xs) cur (end + length xs) ≡ queued f cur end ++ xs
unfolding queued
queued-memcpy_below f cur end xs h =
    let e : end + length xs - cur ≡ end - cur + length xs = omega arith in
    let e' : cur + (end - cur) ≡ end = omega arith in
    let low : leb cur (end + length xs) ≡ true = ground arith in
    let low' : leb cur end ≡ true = ground arith in
    rw (low, low', e, slice-add (memcpy f end xs) cur (end - cur) (length xs), e')
      (ap₂ ◌++◌ (slice-memcpy_outside f end xs cur (end - cur) (inl (omega arith)))
        (slice-memcpy f end xs))

pub queued-memcpy_wrapped :
    (f : Memory) (cur end : ℕ) (xs : Bytes)
    → end + length xs < cur
    → queued (memcpy f end xs) cur (end + length xs) ≡ queued f cur end ++ xs
unfolding queued
queued-memcpy_wrapped f cur end xs h =
    let high : leb cur (end + length xs) ≡ false = ground arith in
    let high' : leb cur end ≡ false = ground arith in
    let top = slice f cur (net_bufsize - cur) in
    let z : 0 + end ≡ end = omega arith in
    rw
      (
        high,
        high',
        slice-memcpy_outside f end xs cur (net_bufsize - cur) (inr (omega arith)),
        slice-add (memcpy f end xs) 0 end (length xs),
        slice-memcpy_outside f end xs 0 end (inl (omega arith)),
      )
      (ap (λ t. top ++ (slice f 0 end ++ t)) (rw z (slice-memcpy f end xs))
        ∙ sym (append_assoc top (slice f 0 end) xs))

pub queued-memcpy_top :
    (f : Memory) (cur end : ℕ) (xs : Bytes)
    → cur ≤ end
    → 0 < cur
    → end + length xs ≡ net_bufsize
    → queued (memcpy f end xs) cur 0 ≡ queued f cur end ++ xs
unfolding queued slice
queued-memcpy_top f cur end xs h pos e =
    let high : leb cur 0 ≡ false = ground arith in
    let low : leb cur end ≡ true = ground arith in
    let split : net_bufsize - cur ≡ end - cur + length xs = omega arith in
    let e' : cur + (end - cur) ≡ end = omega arith in
    rw (high, low, append-nil, split, slice-add (memcpy f end xs) cur (end - cur) (length xs), e')
      (ap₂ ◌++◌ (slice-memcpy_outside f end xs cur (end - cur) (inl (omega arith)))
        (slice-memcpy f end xs))

-- Where the next byte stands once n bytes have left.
abbrev pub next_pos : ℕ → ℕ → ℕ
next_pos cur n = if cur + n == net_bufsize then 0 else cur + n

slice-split :
    (f : Memory) (cur n m : ℕ) → n ≤ m → slice f cur m ≡ slice f cur n ++ slice f (cur + n) (m - n)
slice-split f cur n m h =
    let e : m ≡ n + (m - n) = omega arith in
    subst (λ k. slice f cur k ≡ slice f cur n ++ slice f (cur + n) (m - n)) (sym e)
      (slice-add f cur n (m - n))

-- Bytes leave the queue from its front, in one piece, up to the array's end.
pub queued-take :
    (f : Memory) (cur end n : ℕ)
    → cur < net_bufsize
    → end < net_bufsize
    → n ≤ (if ltb end cur then net_bufsize - cur else end - cur)
    → queued f cur end ≡ slice f cur n ++ queued f (next_pos cur n) end
unfolding queued slice
queued-take f cur end n hc he hn = ground (
  arith,
  slice-split f cur n (end - cur),
  slice-split f cur n (net_bufsize - cur),
  append_assoc (slice f cur n) (slice f (cur + n) (net_bufsize - (cur + n))) (slice f 0 end),
  append-nil (slice f cur n),
)
