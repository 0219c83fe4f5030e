-- ===== src/Socket/Write.antt =====
-- src/sockutil.c: `flush_write_buffer` and `buffered_write`. What select() and write() answer is a
-- list of replies, one for each call of `flush_write_buffer` that gets as far as select().
pub mod Fill
pub mod Flush
pub mod Run
mod Examples
use oftc_blitzed.Base.{
  ℕ, zero, suc, ◌+◌, ◌-◌, ◌*◌, ◌%◌, ◌^◌, Bool, true, false, not, ◌&&◌, ◌||◌, List, [], ◌∷◌, ◌++◌,
  Option, none, some, Bytes, ltb, leb, ◌==◌, if◌then◌else◌, length, take, drop,
}
use oftc_blitzed.Socket.Memory.{Memory, net_bufsize, size_error, memcpy, slice}

pub record WriteBuffer : Type 0 where
  pub netbuf : Memory
  pub curpos : ℕ
  pub bufend : ℕ
  pub total : ℕ

-- select() does not answer 1; write() takes some bytes; write() fails.
pub data Reply : Type 0 where
  not_ready : Reply
  wrote : ℕ → Reply
  failed : Reply

-- The test that the source spells twice, for a buffer with no room.
unfoldable pub is_full : WriteBuffer → Bool
is_full b = b.curpos == b.bufend + 1 || b.curpos == 0 && b.bufend == net_bufsize - 1

unfoldable pub max_write : WriteBuffer → ℕ
max_write b =
    if ltb b.bufend b.curpos
    then net_bufsize - b.curpos
    else if b.bufend == 0
    then net_bufsize - b.curpos - 1
    else b.bufend - b.curpos

-- `nwritten` is a `size_t`: an error of write() arrives as the largest one. Offsets are addresses
-- and wrap at 2 ^ 64; total_written is an `int32`, here as a 32-bit residue.
pub advance : WriteBuffer → ℕ → WriteBuffer
advance b n =
    let cur = (b.curpos + n) % 2 ^ 64 in
    record b { curpos = if cur == net_bufsize then 0 else cur; total = (b.total + n) % 2 ^ 32 }

pub after_write : WriteBuffer → ℕ → WriteBuffer
unfolding advance
after_write b n = if ltb 0 n then advance b n else b

-- The buffer afterwards, and the bytes that the socket took.
unfoldable pub flush_write_buffer : Reply → WriteBuffer → WriteBuffer × Bytes
unfolding after_write
flush_write_buffer r b = if b.bufend == b.curpos then (b, []) else elim r [
  | not_ready ↦ (b, [])
  | wrote n ↦ (after_write b n, slice b.netbuf b.curpos n)
  | failed ↦ (after_write b size_error, [])
]

-- "See if we need to write up to the end of the buffer."
pub fill_top : WriteBuffer → Bytes → WriteBuffer × Bytes
fill_top b data' =
    if leb net_bufsize (b.bufend + length data') && leb b.curpos b.bufend
    then (
      record b {
        netbuf = memcpy b.netbuf b.bufend (take (net_bufsize - b.bufend) data');
        bufend = 0;
      },
      drop (net_bufsize - b.bufend) data',
    )
    else (b, data')

-- The length of the single chunk that is copied next.
pub chunk : WriteBuffer → ℕ → ℕ
chunk b left =
    if ltb b.bufend b.curpos && ltb (b.curpos - b.bufend - 1) left
    then b.curpos - b.bufend - 1
    else left

pub copy_chunk : WriteBuffer → Bytes → WriteBuffer × Bytes
unfolding chunk
copy_chunk b data' =
    let n = chunk b (length data') in
    (
      record b { netbuf = memcpy b.netbuf b.bufend (take n data'); bufend = b.bufend + n },
      drop n data',
    )

-- The first half of a round of `buffered_write`: what fits goes into the buffer.
unfoldable pub fill : WriteBuffer → Bytes → WriteBuffer × Bytes
unfolding fill_top copy_chunk is_full
fill b data' =
    if is_full b then (b, data') else let (b', rest) = fill_top b data' in copy_chunk b' rest

-- How a call of `buffered_write` ends: the buffer, the bytes that the socket took, and the bytes
-- that were not accepted. `none` means that the replies ran out.
pub record Outcome : Type 0 where
  pub buffer : WriteBuffer
  pub sent : Bytes
  pub left : Bytes

abbrev pub prepend : Bytes → Option Outcome → Option Outcome
prepend xs none = none
prepend xs (some o) = some (record o { sent = xs ++ o.sent })

-- The loop `while (left > 0)`, with one reply for each round.
unfoldable pub write_loop : List Reply → WriteBuffer → Bytes → Option Outcome
write_loop rs b [] = some (record { buffer = b; sent = []; left = [] })
write_loop [] b (x ∷ xs) = none
write_loop (r ∷ rs) b (x ∷ xs) =
    let (b', rest) = fill b (x ∷ xs) in
    let (b'', out) = flush_write_buffer r b' in
    let again = write_loop rs b'' rest in
    if is_full b''
    then some (record { buffer = b''; sent = out; left = rest })
    else prepend out again
