-- ===== src/Socket/Read/Refill.antt =====
-- The bytes that come out of the read buffer are those that went in, in order.
use oftc_blitzed.Base.{
  ℕ, ◌+◌, ◌-◌, ◌≤◌, ◌<◌, ◌≡◌, ◌≢◌, sym, ap, ◌∙◌, inl, inr, true, false, List, [], ◌∷◌, ◌++◌, arith,
  Bytes, Bool-cases, leb, ◌==◌, length, some, none, append-nil, append_assoc,
}
use oftc_blitzed.Socket.Memory.{
  net_bufsize, slice, queued, queued-take, slice-one, slice-add, queued-memcpy_below,
  queued-memcpy_wrapped, queued-memcpy_top,
}
use oftc_blitzed.Socket.Read.{
  ReadBuffer, Reply, arrived, failed, is_full, max_read, take_in, ends_loop, bytes_of, refill, pop,
  Got, buffered_read_one,
}

pub record IsValid (b : ReadBuffer) : Type 0 where
  pub cur_bound : b.curpos < net_bufsize
  pub end_bound : b.bufend < net_bufsize

-- The bytes that wait to be read.
abbrev pub waiting : ReadBuffer → Bytes
waiting b = queued b.netbuf b.curpos b.bufend

-- read(2) hands over no more than it is asked for, and does not fail.
abbrev pub IsAnswer : ReadBuffer → Reply → Type 0
IsAnswer b (arrived xs) = length xs ≤ max_read b
IsAnswer b failed = ⊥

-- So do all answers of one refill, each at the buffer that it finds.
pub data Answers : List Reply → ReadBuffer → Type 0 where
  stop : {b : ReadBuffer} → Answers [] b
  full : {r : Reply} {rs : List Reply} {b : ReadBuffer} → is_full b ≡ true → Answers (r ∷ rs) b
  next :
      {r : Reply} {rs : List Reply} {b : ReadBuffer}
      → IsAnswer b r
      → Answers rs (take_in b r)
      → Answers (r ∷ rs) b

take_in-waiting :
    (b : ReadBuffer) (xs : Bytes)
    → IsValid b
    → is_full b ≡ false
    → length xs ≤ max_read b
    → (waiting (take_in b (arrived xs)) ≡ waiting b ++ xs) × IsValid (take_in b (arrived xs))
unfolding take_in max_read is_full
take_in-waiting b xs v room h = ground (
  arith,
  queued-memcpy_below b.netbuf b.curpos b.bufend xs,
  queued-memcpy_wrapped b.netbuf b.curpos b.bufend xs,
  queued-memcpy_top b.netbuf b.curpos b.bufend xs,
)

-- Whatever comes in joins the end of the queue, and the pointers stay inside the array.
refill-waiting :
    (rs : List Reply) (b : ReadBuffer)
    → IsValid b
    → Answers rs b
    → (waiting (refill rs b).0 ≡ waiting b ++ (refill rs b).1) × IsValid (refill rs b).0
unfolding refill ends_loop bytes_of
refill-waiting [] b v a = (sym (append-nil (waiting b)), v)
refill-waiting (r ∷ rs) b v (full f) = rw f (sym (append-nil (waiting b)), v)
refill-waiting (failed ∷ rs) b v (next a k) = absurd a
refill-waiting (arrived [] ∷ rs) b v (next a k) = elim (Bool-cases (is_full b)) [
  | inl f ↦ rw f (sym (append-nil (waiting b)), v)
  | inr f ↦ rw f (sym (append-nil (waiting b)), v)
]
refill-waiting (arrived (x ∷ xs) ∷ rs) b v (next a k) = elim (Bool-cases (is_full b)) [
  | inl f ↦ rw f (sym (append-nil (waiting b)), v)
  | inr f ↦
      let (joins, w) = take_in-waiting b (x ∷ xs) v f a in
      let (later, w') = refill-waiting rs (take_in b (arrived (x ∷ xs))) w k in
      rw f (
        later
            ∙ (ap (λ t. t ++ (refill rs (take_in b (arrived (x ∷ xs)))).1) joins
                ∙ append_assoc (waiting b) (x ∷ xs) _),
        w',
      )
]

-- A byte taken out is the first of the queue.
pop-waiting :
    (b : ReadBuffer)
    → IsValid b
    → b.curpos ≢ b.bufend
    → (waiting b ≡ b.netbuf b.curpos ∷ waiting (pop b)) × IsValid (pop b)
unfolding pop
pop-waiting b v h = ground (
  arith,
  queued-take b.netbuf b.curpos b.bufend 1 v.cur_bound v.end_bound,
  slice-one b.netbuf b.curpos,
)

empty-waiting : (b : ReadBuffer) → b.curpos ≡ b.bufend → waiting b ≡ []
unfolding queued slice
empty-waiting b e = ground arith

cons-some : {c d : ℕ} (xs : Bytes) → some c ≡ some d → c ∷ xs ≡ d ∷ xs
cons-some xs h = cc

take_in-error :
    (b : ReadBuffer)
    → b.curpos < b.bufend
    → b.bufend < net_bufsize
    → take_in b failed ≡ record b { bufend = b.bufend - 1 }
unfolding take_in
take_in-error b h k = ground arith

-- What a call promises: the bytes that waited, followed by those that came in, are the byte that it
-- returns, followed by those that wait afterwards; EOF means that there was none.
pub record Delivers (b : ReadBuffer) (g : Got) : Type 0 where
  pub still_valid : IsValid g.buffer
  pub in_order : (c : ℕ) → g.char ≡ some c → waiting b ++ g.received ≡ c ∷ waiting g.buffer
  pub at_end : g.char ≡ none → waiting b ++ g.received ≡ []

-- `buffered_read_one` returns the bytes in the order in which they came in and skips none,
-- provided that read() does not fail.
pub buffered_read_one-Delivers :
    (rs : List Reply) (b : ReadBuffer)
    → IsValid b
    → Answers rs b
    → Delivers b (buffered_read_one rs b)
unfolding buffered_read_one
buffered_read_one-Delivers rs b v a =
    let (joins, w) = refill-waiting rs b v a in
    elim (Bool-cases ((refill rs b).0.curpos == (refill rs b).0.bufend)) [
      | inl e ↦ rw e (record {
        still_valid = w;
        in_order = λ c h. cc;
        at_end = λ h. sym joins ∙ empty-waiting (refill rs b).0 (ground arith);
      })
      | inr e ↦
          let (first, w') = pop-waiting (refill rs b).0 w (ground arith) in
          rw e (record {
            still_valid = w';
            in_order = λ c h. sym joins ∙ first ∙ cons-some (waiting (pop (refill rs b).0)) h;
            at_end = λ h. cc;
          })
    ]

-- A read() that fails moves the end of the queue back: the byte that came in last is dropped.
pub take_in-failed :
    (b : ReadBuffer)
    → IsValid b
    → b.curpos < b.bufend
    → waiting b ≡ waiting (take_in b failed) ++ b.netbuf (b.bufend - 1) ∷ []
unfolding queued
take_in-failed b v h =
    let n : b.bufend - b.curpos ≡ b.bufend - 1 - b.curpos + 1 = omega arith in
    let p : b.curpos + (b.bufend - 1 - b.curpos) ≡ b.bufend - 1 = omega arith in
    let low : leb b.curpos (b.bufend - 1) ≡ true = ground arith in
    let low' : leb b.curpos b.bufend ≡ true = ground arith in
    rw (
      take_in-error b h v.end_bound,
      low,
      low',
      n,
      slice-add b.netbuf b.curpos (b.bufend - 1 - b.curpos) 1,
      p,
      slice-one,
    )
