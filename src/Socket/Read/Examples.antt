-- ===== src/Socket/Read/Examples.antt =====
-- Runs of the read buffer.
use oftc_blitzed.Base.{◌%◌, ◌≡◌, refl, [], ◌∷◌, arith, some}
use oftc_blitzed.Socket.Memory.{memcpy}
use oftc_blitzed.Socket.Read.{
  ReadBuffer, arrived, is_full, max_read, take_in, ends_loop, buffered_read_one,
}
use oftc_blitzed.Socket.Read.Refill.{Answers, stop, next, Delivers, buffered_read_one-Delivers}

abbrev drained : ReadBuffer
drained = record { netbuf = λ i. 0; curpos = 65535; bufend = 65535; total = 0 }

two_reads : (buffered_read_one (arrived (7 ∷ []) ∷ arrived (8 ∷ []) ∷ []) drained).char ≡ some 7
unfolding buffered_read_one ends_loop take_in memcpy is_full
two_reads = refl

drained-Answers : Answers (arrived (7 ∷ []) ∷ []) drained
unfolding max_read
drained-Answers = next (omega arith) stop

buffered_read_one-Delivers_example :
    Delivers drained (buffered_read_one (arrived (7 ∷ []) ∷ []) drained)
buffered_read_one-Delivers_example =
    buffered_read_one-Delivers (arrived (7 ∷ []) ∷ []) drained (omega arith) drained-Answers

abbrev two_waiting : ReadBuffer
two_waiting = record { netbuf = λ i. i % 256; curpos = 4; bufend = 6; total = 4 }
