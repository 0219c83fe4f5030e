-- ===== src/Socket/Line/Examples.antt =====
-- Runs of the line reader over a list of bytes; a gap in the list stands for an EOF.
use oftc_blitzed.Base.{
  ℕ, ◌≡◌, refl, false, List, [], ◌∷◌, ◌++◌, arith, Bytes, Option, some, none, codes,
}
use oftc_blitzed.Socket.Line.{line, sgets, sgets2}
use oftc_blitzed.Socket.Line.Reads.{Delivers, sgets2-reads}

abbrev Wire : Type 0
Wire = List (Option ℕ)

abbrev next_char : Wire → Option ℕ × Wire
next_char [] = (none, [])
next_char (c ∷ w) = (c, w)

abbrev on_wire : Bytes → Wire
on_wire [] = []
on_wire (c ∷ s) = some c ∷ on_wire s

wire-Delivers : (xs : Bytes) (w : Wire) → Delivers next_char (on_wire xs ++ w) xs w
wire-Delivers [] w = refl
wire-Delivers (x ∷ xs) w = (on_wire xs ++ w, refl, wire-Delivers xs w)

ping_line :
    sgets2 next_char false 16 (on_wire (codes "PING x\r\nrest"))
    ≡ (line (codes "PING x"), on_wire (codes "rest"))
unfolding sgets2 sgets
ping_line = refl

sgets2-reads_example : sgets2 next_char false 8 (on_wire (codes "ok\r\n")) ≡ (line (codes "ok"), [])
sgets2-reads_example =
    sgets2-reads next_char 8 (codes "ok") (on_wire (codes "ok\r\n")) [] (omega arith) (omega arith)
      (wire-Delivers (codes "ok\r\n") [])
