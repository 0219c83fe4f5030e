-- ===== src/Socket/Write/Examples.antt =====
-- Runs of the write buffer.
use oftc_blitzed.Base.{◌%◌, ◌≡◌, refl, inl, [], ◌∷◌, ◌++◌, arith, some}
use oftc_blitzed.Socket.Memory.{slice, queued}
use oftc_blitzed.Socket.Write.{WriteBuffer, not_ready, fill, Outcome, write_loop}
use oftc_blitzed.Socket.Write.Fill.{IsValid, pending, fill-pending}
use oftc_blitzed.Socket.Write.Run.{Accepts, write_loop-Accepts}

-- Three bytes wait, two of them behind the wrap.
abbrev wrapped : WriteBuffer
wrapped = record { netbuf = λ i. i % 256; curpos = 65535; bufend = 2; total = 0 }

wrapped-IsValid : IsValid wrapped
wrapped-IsValid = omega arith

-- Nothing has been sent yet, and one byte is free.
abbrev nearly_full : WriteBuffer
nearly_full = record { netbuf = λ i. i % 256; curpos = 0; bufend = 65534; total = 0 }

wrapped_bytes : pending wrapped ≡ 255 ∷ 0 ∷ 1 ∷ []
unfolding queued slice
wrapped_bytes = refl

fill-pending_example :
    (pending (fill wrapped (7 ∷ 8 ∷ [])).0 ++ (fill wrapped (7 ∷ 8 ∷ [])).1
      ≡ pending wrapped ++ 7 ∷ 8 ∷ [])
    × IsValid (fill wrapped (7 ∷ 8 ∷ [])).0
fill-pending_example = fill-pending wrapped (7 ∷ 8 ∷ []) wrapped-IsValid (inl (omega arith))

abbrev part_sent : WriteBuffer
part_sent = record { netbuf = λ i. i % 256; curpos = 4; bufend = 6; total = 4 }

write_loop-Accepts_example :
    (o : Outcome) × (write_loop (not_ready ∷ []) wrapped (7 ∷ []) ≡ some o)
    × Accepts wrapped (7 ∷ []) o
unfolding queued slice
write_loop-Accepts_example =
    write_loop-Accepts not_ready [] wrapped (7 ∷ []) wrapped-IsValid (omega arith) tt
