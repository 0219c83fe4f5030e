-- ===== src/Socket/Read.antt =====
-- src/sockutil.c: `buffered_read_one`, with the loop that takes in what has arrived. Each answer
-- of select() and read() together is a reply; a list of them serves one call.
pub mod Refill
mod Examples
use oftc_blitzed.Base.{
  ℕ, zero, suc, ◌+◌, ◌-◌, ◌*◌, ◌%◌, ◌^◌, Bool, true, false, not, ◌&&◌, ◌||◌, List, [], ◌∷◌, ◌++◌,
  Option, none, some, Bytes, ltb, leb, ◌==◌, if◌then◌else◌, length, take, drop,
}
use oftc_blitzed.Socket.Memory.{Memory, net_bufsize, size_error, memcpy, slice}

pub record ReadBuffer : Type 0 where
  pub netbuf : Memory
  pub curpos : ℕ
  pub bufend : ℕ
  pub total : ℕ

-- select() answers 1, and read() then hands over bytes (none at the end of the stream) or fails.
pub data Reply : Type 0 where
  arrived : Bytes → Reply
  failed : Reply

unfoldable pub is_full : ReadBuffer → Bool
is_full b = b.bufend + 1 == b.curpos || b.curpos == 0 && b.bufend == net_bufsize - 1

unfoldable pub max_read : ReadBuffer → ℕ
max_read b =
    if ltb b.bufend b.curpos
    then b.curpos - 1 - b.bufend
    else if b.curpos == 0
    then net_bufsize - b.bufend - 1
    else net_bufsize - b.bufend

-- `read_bufend += nread`, an address that wraps at 2 ^ 64; then the wrap at the array's end.
pub advance : ReadBuffer → ℕ → ReadBuffer
advance b n =
    let end = (b.bufend + n) % 2 ^ 64 in record b { bufend = if end == net_bufsize then 0 else end }

-- One read() into the buffer. `nread` is a `size_t`: the test `nread <= 0` sees no error.
unfoldable pub take_in : ReadBuffer → Reply → ReadBuffer
unfolding advance
take_in b (arrived xs) = advance (record b { netbuf = memcpy b.netbuf b.bufend xs }) (length xs)
take_in b failed = advance b size_error

unfoldable pub ends_loop : Reply → Bool
ends_loop (arrived []) = true
ends_loop (arrived (x ∷ xs)) = false
ends_loop failed = false

pub bytes_of : Reply → Bytes
bytes_of (arrived xs) = xs
bytes_of failed = []

-- The inner `while`: the buffer afterwards, and the bytes that came in.
unfoldable pub refill : List Reply → ReadBuffer → ReadBuffer × Bytes
refill [] b = (b, [])
refill (r ∷ rs) b =
    let more = refill rs (take_in b r) in
    if is_full b || ends_loop r then (b, []) else (more.0, bytes_of r ++ more.1)

-- `c = *read_curpos++`, with the wrap at the array's end; total_read is an `int32`, here as a 32-bit
-- residue.
pub pop : ReadBuffer → ReadBuffer
pop b = record b {
  curpos = if b.curpos + 1 == net_bufsize then 0 else b.curpos + 1;
  total = (b.total + 1) % 2 ^ 32;
}

-- The byte, or `none` for EOF, and what came in on the way.
pub record Got : Type 0 where
  pub char : Option ℕ
  pub buffer : ReadBuffer
  pub received : Bytes

unfoldable pub buffered_read_one : List Reply → ReadBuffer → Got
unfolding refill pop
buffered_read_one rs b =
    let (b', xs) = refill rs b in
    if b'.curpos == b'.bufend
    then record { char = none; buffer = b'; received = xs }
    else record { char = some (b'.netbuf b'.curpos); buffer = pop b'; received = xs }
