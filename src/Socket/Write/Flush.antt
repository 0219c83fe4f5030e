-- ===== src/Socket/Write/Flush.antt =====
-- What `flush_write_buffer` hands to the socket.
use oftc_blitzed.Base.{
  ℕ, suc, ◌+◌, ◌-◌, ◌≤◌, ◌<◌, ◌≡◌, ◌≢◌, ap, true, false, ◌∷◌, ◌++◌, arith, leb, ◌==◌,
}
use oftc_blitzed.Socket.Memory.{net_bufsize, size_error, slice, queued, queued-take, slice-suc}
use oftc_blitzed.Socket.Write.{
  WriteBuffer, Reply, not_ready, wrote, failed, max_write, after_write, flush_write_buffer,
}
use oftc_blitzed.Socket.Write.Fill.{IsValid, pending}

-- write(2) takes no more than it is offered, and does not fail.
abbrev pub IsAnswer : WriteBuffer → Reply → Type 0
IsAnswer b not_ready = Unit {0}
IsAnswer b (wrote n) = n ≤ max_write b
IsAnswer b failed = ⊥

-- While bytes wait, write() is offered at least one.
pub max_write-pos : (b : WriteBuffer) → IsValid b → b.curpos ≢ b.bufend → 0 < max_write b
unfolding max_write
max_write-pos b v h = ground arith

-- `flush_write_buffer` hands over the bytes from the front of the queue and keeps the rest, and the
-- pointers stay inside the array, provided that write() does not fail.
pub flush_write_buffer-pending :
    (r : Reply) (b : WriteBuffer)
    → IsValid b
    → IsAnswer b r
    → (pending b ≡ (flush_write_buffer r b).1 ++ pending (flush_write_buffer r b).0)
      × IsValid (flush_write_buffer r b).0
unfolding flush_write_buffer max_write slice queued
flush_write_buffer-pending not_ready b v a = ground arith
flush_write_buffer-pending (wrote n) b v a =
    ground (arith, queued-take b.netbuf b.curpos b.bufend n v.cur_bound v.end_bound)
flush_write_buffer-pending failed b v a = absurd a

after_write-error :
    (b : WriteBuffer)
    → 0 < b.curpos
    → b.curpos < net_bufsize
    → (after_write b size_error).curpos ≡ b.curpos - 1
unfolding after_write
after_write-error b pos h = ground arith

after_write-end : (b : WriteBuffer) (n : ℕ) → (after_write b n).bufend ≡ b.bufend
unfolding after_write
after_write-end b n = ground arith

after_write-mem : (b : WriteBuffer) (n : ℕ) → (after_write b n).netbuf ≡ b.netbuf
unfolding after_write
after_write-mem b n = ground arith

-- A failed write() moves the front of the queue back: the byte before it is queued once more.
pub flush_write_buffer-failed :
    (b : WriteBuffer)
    → IsValid b
    → 0 < b.curpos
    → b.curpos < b.bufend
    → pending (flush_write_buffer failed b).0 ≡ b.netbuf (b.curpos - 1) ∷ pending b
unfolding flush_write_buffer queued
flush_write_buffer-failed b v pos h =
    let busy : (b.bufend == b.curpos) ≡ false = ground arith in
    let low : leb (b.curpos - 1) b.bufend ≡ true = ground arith in
    let low' : leb b.curpos b.bufend ≡ true = ground arith in
    let n : b.bufend - (b.curpos - 1) ≡ suc (b.bufend - b.curpos) = omega arith in
    let next : b.curpos - 1 + 1 ≡ b.curpos = omega arith in
    rw
      (
        busy,
        after_write-error b pos v.cur_bound,
        after_write-end,
        after_write-mem,
        low,
        low',
        n,
        slice-suc,
      )
      (ap (λ p. b.netbuf (b.curpos - 1) ∷ slice b.netbuf p (b.bufend - b.curpos)) next)
