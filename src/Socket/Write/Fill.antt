-- ===== src/Socket/Write/Fill.antt =====
-- What `fill` puts into the buffer, and when.
use oftc_blitzed.Base.{
  ℕ, ◌+◌, ◌-◌, ◌≤◌, ◌<◌, ◌≡◌, refl, ◌≢◌, subst, ap, ◌∙◌, ◌⊎◌, inl, inr, true, false, [], ◌∷◌, ◌++◌,
  arith, Bytes, Bool-cases, ltb, leb, ◌&&◌, length, take, drop, length-take, length-drop,
  take-append-drop, append_assoc,
}
use oftc_blitzed.Socket.Memory.{
  net_bufsize, memcpy, slice, queued, buffer_len, length-queued, queued-memcpy_below,
  queued-memcpy_wrapped, queued-memcpy_top,
}
use oftc_blitzed.Socket.Write.{WriteBuffer, is_full, fill_top, chunk, copy_chunk, fill}

-- Both pointers point into the array.
pub record IsValid (b : WriteBuffer) : Type 0 where
  pub cur_bound : b.curpos < net_bufsize
  pub end_bound : b.bufend < net_bufsize

-- The bytes that wait for the socket.
abbrev pub pending : WriteBuffer → Bytes
pending b = queued b.netbuf b.curpos b.bufend

-- `left` more bytes do not run into the array's end while the next byte out is the array's first.
abbrev pub HasWrapRoom : WriteBuffer → ℕ → Type 0
HasWrapRoom b left = (b.curpos ≢ 0) ⊎ (b.bufend + left < net_bufsize)

take-length-le : (n : ℕ) (xs : Bytes) → n ≤ length xs → length (take n xs) ≡ n
take-length-le n xs h = omega (arith, length-take n xs)

chunk-le : (b : WriteBuffer) (left : ℕ) → chunk b left ≤ left
unfolding chunk
chunk-le b left = ground arith

-- The chunk is copied behind what waits already.
copy_chunk-take :
    (b : WriteBuffer) (xs : Bytes)
    → pending (copy_chunk b xs).0 ≡ pending b ++ take (chunk b (length xs)) xs
unfolding copy_chunk
copy_chunk-take b xs =
    let n = chunk b (length xs) in
    let e : length (take n xs) ≡ n = take-length-le n xs (chunk-le b (length xs)) in
    subst
      (λ k.
        queued (memcpy b.netbuf b.bufend (take n xs)) b.curpos (b.bufend + k)
        ≡ pending b ++ take n xs)
      e
      (elim (Bool-cases (ltb b.bufend b.curpos)) [
        | inl h ↦
            queued-memcpy_wrapped b.netbuf b.curpos b.bufend (take n xs) (ground (arith, e, chunk))
        | inr h ↦ queued-memcpy_below b.netbuf b.curpos b.bufend (take n xs) (ground arith)
      ])

copy_chunk-drop :
    (b : WriteBuffer) (xs : Bytes) → (copy_chunk b xs).1 ≡ drop (chunk b (length xs)) xs
unfolding copy_chunk
copy_chunk-drop b xs = refl

copy_chunk-pending :
    (b : WriteBuffer) (xs : Bytes)
    → pending (copy_chunk b xs).0 ++ (copy_chunk b xs).1 ≡ pending b ++ xs
copy_chunk-pending b xs =
    let n = chunk b (length xs) in
    rw (copy_chunk-take, copy_chunk-drop)
      (append_assoc (pending b) (take n xs) (drop n xs)
        ∙ ap (◌++◌ (pending b)) (take-append-drop n xs))

fill_top-pending :
    (b : WriteBuffer) (xs : Bytes)
    → IsValid b
    → HasWrapRoom b (length xs)
    → pending (fill_top b xs).0 ++ (fill_top b xs).1 ≡ pending b ++ xs
unfolding fill_top
fill_top-pending b xs v room =
    elim (Bool-cases (leb net_bufsize (b.bufend + length xs) && leb b.curpos b.bufend)) [
      | inr h ↦ rw h
      | inl h ↦
          let n = net_bufsize - b.bufend in
          let e : length (take n xs) ≡ n = take-length-le n xs (ground arith) in
          rw
            (
              h,
              queued-memcpy_top b.netbuf b.curpos b.bufend (take n xs) (ground arith) (ground arith)
                  (omega (arith, e)),
            )
            (append_assoc (pending b) (take n xs) (drop n xs)
              ∙ ap (◌++◌ (pending b)) (take-append-drop n xs))
    ]

-- Behind the first step the data fit in front of the array's end, or the queue has wrapped.
fill_top-IsValid :
    (b : WriteBuffer) (xs : Bytes)
    → IsValid b
    → HasWrapRoom b (length xs)
    → IsValid (fill_top b xs).0
      × (((fill_top b xs).0.bufend < (fill_top b xs).0.curpos)
          ⊎ ((fill_top b xs).0.bufend + length (fill_top b xs).1 < net_bufsize))
unfolding fill_top
fill_top-IsValid b xs v room = ground arith

copy_chunk-IsValid :
    (b : WriteBuffer) (xs : Bytes)
    → IsValid b
    → (b.bufend < b.curpos) ⊎ (b.bufend + length xs < net_bufsize)
    → IsValid (copy_chunk b xs).0
unfolding copy_chunk
copy_chunk-IsValid b xs v room = ground arith

-- One round of `buffered_write` keeps the order of the bytes and loses none: what waits in the
-- buffer afterwards, followed by what is left over, is what waited before, followed by the data.
-- The pointers stay inside the array. This holds unless the data reach the array's end while the
-- next byte out is the array's first.
pub fill-pending :
    (b : WriteBuffer) (xs : Bytes)
    → IsValid b
    → HasWrapRoom b (length xs)
    → (pending (fill b xs).0 ++ (fill b xs).1 ≡ pending b ++ xs) × IsValid (fill b xs).0
unfolding fill
fill-pending b xs v room = elim (Bool-cases (is_full b)) [
  | inl h ↦ rw h (refl, v)
  | inr h ↦
      let (b', rest) = fill_top b xs in
      let w = fill_top-IsValid b xs v room in
      rw h (
        copy_chunk-pending b' rest ∙ fill_top-pending b xs v room,
        copy_chunk-IsValid b' rest w.0 w.1,
      )
]

length-zero : (xs : Bytes) → length xs ≡ 0 → xs ≡ []
length-zero [] e = refl
length-zero (x ∷ xs) e = absurd (omega arith)

-- With the next byte out at the array's start, data that end exactly at the array's end leave a
-- buffer that counts as empty: everything that waited and all of the data is lost, and the round
-- reports all of the data as accepted.
pub fill-loses :
    (b : WriteBuffer) (xs : Bytes)
    → IsValid b
    → b.curpos ≡ 0
    → is_full b ≡ false
    → b.bufend + length xs ≡ net_bufsize
    → (pending (fill b xs).0 ≡ []) × ((fill b xs).1 ≡ [])
unfolding fill queued slice
fill-loses b xs v start room e =
    let rest = drop (net_bufsize - b.bufend) xs in
    let none_left : rest ≡ [] =
      length-zero rest (omega (arith, length-drop (net_bufsize - b.bufend) xs)) in
    ground (arith, none_left)

chunk_all :
    (b : WriteBuffer) (left : ℕ)
    → (b.bufend < b.curpos → b.bufend + left < b.curpos)
    → chunk b left ≡ left
unfolding chunk
chunk_all b left h = ground arith

copy_chunk-all :
    (b : WriteBuffer) (xs : Bytes)
    → (b.bufend < b.curpos → b.bufend + length xs < b.curpos)
    → (copy_chunk b xs).1 ≡ []
copy_chunk-all b xs h =
    rw (copy_chunk-drop, chunk_all b (length xs) h)
      (length-zero _ (omega (arith, length-drop (length xs) xs)))

fill_top-fits :
    (b : WriteBuffer) (xs : Bytes)
    → IsValid b
    → buffer_len b.curpos b.bufend + length xs < net_bufsize
    → (fill_top b xs).0.bufend < (fill_top b xs).0.curpos
    → (fill_top b xs).0.bufend + length (fill_top b xs).1 < (fill_top b xs).0.curpos
unfolding fill_top buffer_len
fill_top-fits b xs v fits = ground (arith, length-drop (net_bufsize - b.bufend) xs)

is_full-len :
    (b : WriteBuffer)
    → IsValid b
    → is_full b ≡ true
    → buffer_len b.curpos b.bufend + 1 ≡ net_bufsize
unfolding is_full buffer_len
is_full-len b v h = ground arith

-- Data that fit into the free space are taken in one round.
pub fill-rest :
    (b : WriteBuffer) (xs : Bytes)
    → IsValid b
    → length (pending b) + length xs < net_bufsize
    → (fill b xs).1 ≡ []
unfolding fill
fill-rest b xs v fits =
    let q = length-queued b.netbuf b.curpos b.bufend v.cur_bound in
    elim (Bool-cases (is_full b)) [
      | inl h ↦ rw h (length-zero xs (omega (arith, is_full-len b v h, q)))
      | inr h ↦ rw h (
          copy_chunk-all (fill_top b xs).0 (fill_top b xs).1
            (fill_top-fits b xs v (omega (arith, q))))
    ]

pub HasWrapRoom-of_fits :
    (b : WriteBuffer) (left : ℕ)
    → IsValid b
    → length (pending b) + left < net_bufsize
    → HasWrapRoom b left
unfolding buffer_len
HasWrapRoom-of_fits b left v fits =
    ground (arith, length-queued b.netbuf b.curpos b.bufend v.cur_bound)
