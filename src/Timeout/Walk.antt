-- ===== src/Timeout/Walk.antt =====
-- The list under a walk: what lies before the walked part, and the walked part.
use oftc_blitzed.Base.{
  ℕ, ◌+◌, ◌<◌, ◌≡◌, refl, ap, sym, ◌∙◌, true, false, List, [], ◌∷◌, ◌++◌, some, arith, ◌==◌, length,
  append_assoc, append-nil,
}
use oftc_blitzed.Timeout.{
  Timeout, Timeouts, Action, add, del, add_timeout, unlink, run_actions, first, deref,
}

-- No timeout of a list has the address.
abbrev pub Avoids : ℕ → List Timeout → Type 0
Avoids a [] = Unit
Avoids a (p ∷ l) = ((p.address == a) ≡ false) × Avoids a l

-- No address of the second list is in the first.
abbrev pub IsApart : List Timeout → List Timeout → Type 0
IsApart p [] = Unit
IsApart p (x ∷ l) = Avoids x.address p × IsApart p l

-- The addresses of a list are different, and below a bound.
abbrev pub IsBelow : ℕ → List Timeout → Type 0
IsBelow f [] = Unit
IsBelow f (x ∷ l) = (x.address < f) × Avoids x.address l × IsBelow f l

-- Actions that add timeouts only.
abbrev pub IsAdding : List Action → Type 0
IsAdding [] = Unit
IsAdding (add delay code repeat ∷ l) = IsAdding l
IsAdding (del a ∷ l) = ⊥

-- The timeouts that are added, from an address on, the last one first.
abbrev pub asked : ℕ → ℕ → List Action → List Timeout
asked now f [] = []
asked now f (add delay code repeat ∷ l) =
    asked now (f + 1) l
    ++ record { address = f; settime = now; timeout = now + delay; code = code; repeat = repeat }
      ∷ []
asked now f (del a ∷ l) = asked now f l

pub run_actions-asked :
    (now : ℕ) (l : List Action) (ts : Timeouts)
    → IsAdding l
    → run_actions now l ts
      ≡ record { timeouts = asked now ts.fresh l ++ ts.timeouts; fresh = ts.fresh + length l }
unfolding run_actions add_timeout
run_actions-asked now [] ts h = ap (λ n. record { timeouts = ts.timeouts; fresh = n }) (omega arith)
run_actions-asked now (add delay code repeat ∷ l) ts h =
    let t : Timeout = record {
      address = ts.fresh;
      settime = now;
      timeout = now + delay;
      code = code;
      repeat = repeat;
    } in
    rw
      (
        run_actions-asked now l (add_timeout now delay code repeat ts) h,
        append_assoc (asked now (ts.fresh + 1) l) (t ∷ []) ts.timeouts,
      )
      (ap (λ n. record { timeouts = asked now (ts.fresh + 1) l ++ t ∷ ts.timeouts; fresh = n })
        (omega arith))
run_actions-asked now (del a ∷ l) ts h = absurd h

pub asked-++ :
    (now f : ℕ) (l k : List Action)
    → IsAdding l
    → asked now f (l ++ k) ≡ asked now (f + length l) k ++ asked now f l
asked-++ now f [] k h =
    ap (λ n. asked now n k) (omega arith) ∙ sym (append-nil (asked now (f + 0) k))
asked-++ now f (add delay code repeat ∷ l) k h =
    let t : Timeout = record {
      address = f;
      settime = now;
      timeout = now + delay;
      code = code;
      repeat = repeat;
    } in
    rw (asked-++ now (f + 1) l k h) (
      append_assoc (asked now (f + 1 + length l) k) (asked now (f + 1) l) (t ∷ [])
      ∙ ap (λ n. asked now n k ++ (asked now (f + 1) l ++ t ∷ [])) (omega arith))
asked-++ now f (del a ∷ l) k h = absurd h

pub Avoids-++ : (a : ℕ) (p q : List Timeout) → Avoids a p → Avoids a q → Avoids a (p ++ q)
Avoids-++ a [] q h k = k
Avoids-++ a (x ∷ p) q (e, h) k = (e, Avoids-++ a p q h k)

pub asked-Avoids : (now f a : ℕ) (l : List Action) → a < f → Avoids a (asked now f l)
asked-Avoids now f a [] h = tt
asked-Avoids now f a (add delay code repeat ∷ l) h =
    Avoids-++ a (asked now (f + 1) l) _ (asked-Avoids now (f + 1) a l (omega (arith, h)))
      (ground (arith, h), tt)
asked-Avoids now f a (del b ∷ l) h = asked-Avoids now f a l h

-- The addresses that are still to come stay apart when timeouts are added in front, and when the walk
-- goes past one.
pub asked-IsApart :
    (now f : ℕ) (acts : List Action) (p l : List Timeout)
    → IsBelow f l
    → IsApart p l
    → IsApart (asked now f acts ++ p) l
asked-IsApart now f acts p [] b h = tt
asked-IsApart now f acts p (x ∷ l) (lt, _, b) (h, k) = (
  Avoids-++ x.address (asked now f acts) p (asked-Avoids now f x.address acts lt) h,
  asked-IsApart now f acts p l b k,
)

pub snoc-IsApart :
    (p l : List Timeout) (x : Timeout) → IsApart p l → Avoids x.address l → IsApart (p ++ x ∷ []) l
snoc-IsApart p [] x h a = tt
snoc-IsApart p (y ∷ l) x (h, k) (e, a) =
    (Avoids-++ y.address p (x ∷ []) h (ground (arith, e), tt), snoc-IsApart p l x k a)

pub IsBelow-weaken : (f k : ℕ) (l : List Timeout) → IsBelow f l → IsBelow (f + k) l
IsBelow-weaken f k [] h = tt
IsBelow-weaken f k (x ∷ l) (lt, a, h) = (omega (arith, lt), a, IsBelow-weaken f k l h)

-- Behind a part without the address.
pub deref-behind :
    (x : Timeout) (p l : List Timeout)
    → Avoids x.address p
    → deref x.address (p ++ x ∷ l) ≡ some (x, first l)
unfolding deref
deref-behind x [] l h = let e : (x.address == x.address) ≡ true = ground arith in rw e refl
deref-behind x (y ∷ p) l (e, h) = rw e (deref-behind x p l h)

pub unlink-behind :
    (x : Timeout) (p l : List Timeout) → Avoids x.address p → unlink x.address (p ++ x ∷ l) ≡ p ++ l
unfolding unlink
unlink-behind x [] l h = let e : (x.address == x.address) ≡ true = ground arith in rw e refl
unlink-behind x (y ∷ p) l (e, h) = rw e (ap (λ r. y ∷ r) (unlink-behind x p l h))
