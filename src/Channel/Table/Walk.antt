-- ===== src/Channel/Table/Walk.antt =====
-- Which channels a walk sees.
use oftc_blitzed.Base.{
  ℕ, zero, suc, ◌+◌, ◌≤◌, ◌≡◌, refl, sym, ap, ◌∙◌, true, false, ◌&&◌, List, [], ◌∷◌, ◌++◌, ltb,
  length, arith,
}
use oftc_blitzed.Channel.Defs.{Channel}
use oftc_blitzed.Channel.Table.{Table, Cursor, scan, firstchan, nextchan, visit}

-- The buckets from an index on.
unfoldable pub buckets : ℕ → ℕ → Table → List Channel
buckets zero i chanlist = []
buckets (suc n) i chanlist = chanlist i ++ buckets n (i + 1) chanlist

abbrev pub all_channels : Table → List Channel
all_channels chanlist = buckets 1024 0 chanlist

-- A place with n buckets left, found by scan from (cur, i): what is before it is the same, and at
-- NULL nothing is left.
record IsSettled (chanlist : Table) (n : ℕ) (cur : List Channel) (i : ℕ) (s : Cursor) : Type 0 where
  left : ℕ
  sum : left + s.next_index ≡ 1024
  same : s.current ++ buckets left s.next_index chanlist ≡ cur ++ buckets n i chanlist
  ended : s.current ≡ [] → left ≡ 0

scan-IsSettled :
    (m n : ℕ) (chanlist : Table) (cur : List Channel) (i : ℕ)
    → n + i ≡ 1024
    → n ≤ m
    → IsSettled chanlist n cur i (scan m chanlist (record { current = cur; next_index = i }))
unfolding scan buckets
scan-IsSettled zero n chanlist cur i e h = record {
  left = n;
  sum = e;
  same = refl;
  ended = λ q. omega (arith, h);
}
scan-IsSettled (suc m) n chanlist (c ∷ l) i e h =
    let stay : (ltb i 1024 && false) ≡ false = ground arith in
    rw stay (record { left = n; sum = e; same = refl; ended = λ q. absurd (cc) })
scan-IsSettled (suc m) zero chanlist [] i e h =
    let stop : ltb i 1024 ≡ false = ground (arith, e) in
    rw stop (record { left = 0; sum = e; same = refl; ended = λ q. refl })
scan-IsSettled (suc m) (suc n) chanlist [] i e h =
    let go : ltb i 1024 ≡ true = ground (arith, e) in
    let r =
      scan-IsSettled m n chanlist (chanlist i) (i + 1) (omega (arith, e)) (omega (arith, h)) in
    rw go (record { left = r.left; sum = r.sum; same = r.same; ended = r.ended })

visit-end :
    (m : ℕ) (chanlist : Table) (i : ℕ)
    → visit m chanlist (record { current = []; next_index = i }) ≡ []
unfolding visit
visit-end zero chanlist i = refl
visit-end (suc m) chanlist i = refl

visit-rest :
    (m n : ℕ) (chanlist : Table) (cur : List Channel) (i : ℕ)
    → n + i ≡ 1024
    → (cur ≡ [] → n ≡ 0)
    → length (cur ++ buckets n i chanlist) ≤ m
    → visit m chanlist (record { current = cur; next_index = i }) ≡ cur ++ buckets n i chanlist
unfolding visit nextchan buckets
visit-rest m n chanlist [] i e z h =
    visit-end m chanlist i ∙ sym (ap (λ k. buckets k i chanlist) (z refl))
visit-rest zero n chanlist (c ∷ l) i e z h = ground arith
visit-rest (suc m) n chanlist (c ∷ l) i e z h =
    let r = scan-IsSettled 1024 n chanlist l i e (omega (arith, e)) in
    let s = scan 1024 chanlist (record { current = l; next_index = i }) in
    ap (λ x. c ∷ x)
      (visit-rest m r.left chanlist s.current s.next_index r.sum r.ended
          (omega (arith, h, ap length r.same))
        ∙ r.same)

-- A walk sees first what the last one has left behind `current`, and then every channel of every
-- bucket once, in order: exactly the channels of the table if the last walk ended at NULL, and some
-- of them twice if it was left early, as findchan_by_id does when it finds a channel.
pub visit-firstchan :
    (m : ℕ) (chanlist : Table) (k : Cursor)
    → length (k.current ++ all_channels chanlist) ≤ m
    → visit m chanlist (firstchan chanlist k) ≡ k.current ++ all_channels chanlist
unfolding firstchan
visit-firstchan m chanlist k h =
    let r = scan-IsSettled 1024 1024 chanlist k.current 0 refl (omega arith) in
    let s = scan 1024 chanlist (record { current = k.current; next_index = 0 }) in
    visit-rest m r.left chanlist s.current s.next_index r.sum r.ended
      (omega (arith, h, ap length r.same))
    ∙ r.same
