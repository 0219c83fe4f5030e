-- ===== src/Socket/Write/Run.antt =====
-- A whole call of `buffered_write`.
use oftc_blitzed.Base.{
  ℕ, ◌+◌, ◌<◌, ◌≡◌, refl, sym, ap, ◌∙◌, List, [], ◌∷◌, ◌++◌, arith, Bytes, length, some, append-nil,
}
use oftc_blitzed.Socket.Memory.{net_bufsize}
use oftc_blitzed.Socket.Write.{WriteBuffer, Reply, fill, flush_write_buffer, Outcome, write_loop}
use oftc_blitzed.Socket.Write.Fill.{IsValid, pending, fill-pending, fill-rest, HasWrapRoom-of_fits}
use oftc_blitzed.Socket.Write.Flush.{IsAnswer, flush_write_buffer-pending}

-- The call ends, accepts all data and keeps their order.
pub record Accepts (b : WriteBuffer) (xs : Bytes) (o : Outcome) : Type 0 where
  pub all_taken : o.left ≡ []
  pub in_order : o.sent ++ pending o.buffer ≡ pending b ++ xs
  pub still_valid : IsValid o.buffer

write_loop-one :
    (r : Reply) (rs : List Reply) (b : WriteBuffer) (x : ℕ) (xs : Bytes)
    → (fill b (x ∷ xs)).1 ≡ []
    → write_loop (r ∷ rs) b (x ∷ xs)
      ≡ some (record {
        buffer = (flush_write_buffer r (fill b (x ∷ xs)).0).0;
        sent = (flush_write_buffer r (fill b (x ∷ xs)).0).1;
        left = [];
      })
unfolding write_loop
write_loop-one r rs b x xs e =
    let out = (flush_write_buffer r (fill b (x ∷ xs)).0).1 in
    rw (e, write_loop) (ground (arith, append-nil out))

-- Data that fit into the free space of the buffer are accepted by one round, whatever select() and
-- a write() without an error answer: the call ends, leaves nothing over, and the bytes handed to
-- the socket followed by those that wait are those that waited before followed by the data.
pub write_loop-Accepts :
    (r : Reply) (rs : List Reply) (b : WriteBuffer) (xs : Bytes)
    → IsValid b
    → length (pending b) + length xs < net_bufsize
    → IsAnswer (fill b xs).0 r
    → (o : Outcome) × (write_loop (r ∷ rs) b xs ≡ some o) × Accepts b xs o
unfolding write_loop
write_loop-Accepts r rs b [] v fits a = (
  record { buffer = b; sent = []; left = [] },
  refl,
  record { all_taken = refl; in_order = sym (append-nil (pending b)); still_valid = v },
)
write_loop-Accepts r rs b (x ∷ xs) v fits a =
    let rest = fill-rest b (x ∷ xs) v fits in
    let (keeps, w) = fill-pending b (x ∷ xs) v (HasWrapRoom-of_fits b _ v fits) in
    let (front, w') = flush_write_buffer-pending r (fill b (x ∷ xs)).0 w a in
    (
      _,
      write_loop-one r rs b x xs rest,
      record {
        all_taken = refl;
        in_order =
            sym front
            ∙ (sym (append-nil _) ∙ (ap (◌++◌ (pending (fill b (x ∷ xs)).0)) (sym rest) ∙ keeps));
        still_valid = w';
      },
    )
