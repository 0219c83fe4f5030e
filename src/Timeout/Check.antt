-- ===== src/Timeout/Check.antt =====
-- What a run of check_timeouts amounts to when the routines only add timeouts.
use oftc_blitzed.Base.{
  ℕ, zero, suc, ◌+◌, ◌≤◌, ◌≡◌, refl, ap, sym, ◌∙◌, Bool, true, false, ◌||◌, not, List, [], ◌∷◌,
  ◌++◌, Option, some, arith, ltb, length, append_assoc, append-nil, length-append, keep_if, inl,
  inr, Bool-cases, if◌then◌else◌,
}
use oftc_blitzed.Timeout.{
  Timeout, Timeouts, Action, run_actions, first, deref, del_timeout, visit, walk, check_timeouts,
}
use oftc_blitzed.Timeout.Walk.{
  Avoids, IsApart, IsBelow, IsAdding, asked, asked-++, run_actions-asked, asked-IsApart,
  snoc-IsApart, IsBelow-weaken, deref-behind, unlink-behind, Avoids-++, asked-Avoids,
}

abbrev pub is_due : ℕ → Timeout → Bool
is_due now to = not (ltb now to.timeout)

abbrev pub stays : ℕ → Timeout → Bool
stays now to = ltb now to.timeout || to.repeat

regroup :
    (b : Bool) (a d p k : List Timeout) (x : Timeout)
    → a ++ (((d ++ p) ++ (if b then x ∷ [] else [])) ++ k)
      ≡ (a ++ d) ++ (p ++ (if b then x ∷ k else k))
regroup true a d p k x =
    rw (append_assoc (d ++ p) (x ∷ []) k, append_assoc d p (x ∷ k), append_assoc a d (p ++ x ∷ k))
      refl
regroup false a d p k x =
    rw (append-nil (d ++ p), append_assoc d p k, append_assoc a d (p ++ k)) refl

module _ {ℓ} {W : Type ℓ} (call : Timeout → W → W × List Action) where
  -- The routines of a list of timeouts, one after the other.
  unfoldable pub call_all : List Timeout → W → W × List Action
  call_all [] w = (w, [])
  call_all (to ∷ l) w =
      let (v, acts) = call to w in let (u, rest) = call_all l v in (u, acts ++ rest)

  -- The state and the list after a run over the rest `l` of a list, with `p` before it.
  abbrev Outcome : ℕ → ℕ → List Timeout → List Timeout → W → W × Timeouts
  Outcome now f p l w =
      let (u, acts) = call_all (keep_if (is_due now) l) w in
      (
        u,
        record {
          timeouts = asked now f acts ++ (p ++ keep_if (stays now) l);
          fresh = f + length acts;
        },
      )

  walk-turn :
      (now n a : ℕ) (ts ts' : Timeouts) (w v : W) (next : Option ℕ)
      → visit call now a ts w (deref a ts.timeouts) ≡ some (next, ts', v)
      → walk call now (suc n) (some a) ts w ≡ walk call now n next ts' v
  unfolding walk
  walk-turn now n a ts ts' w v next e = rw (walk, e) refl

  -- A turn on a timeout that is due, whose routine only adds timeouts: they come in front, and it goes
  -- unless it repeats.
  visit-due :
      (now f : ℕ) (p l : List Timeout) (x : Timeout) (w : W)
      → IsAdding (call x w).1
      → ltb now x.timeout ≡ false
      → Avoids x.address (asked now f (call x w).1 ++ p)
      → visit call now x.address (record { timeouts = p ++ x ∷ l; fresh = f }) w (some (x, first l))
        ≡ some (
          first l,
          record {
            timeouts = (asked now f (call x w).1 ++ p) ++ (if x.repeat then x ∷ l else l);
            fresh = f + length (call x w).1;
          },
          (call x w).0,
        )
  visit-due now f p l x w g e a =
      let acts = (call x w).1 in
      let p' = asked now f acts ++ p in
      let added : run_actions now acts (record { timeouts = p ++ x ∷ l; fresh = f })
          ≡ record { timeouts = p' ++ x ∷ l; fresh = f + length acts } =
        run_actions-asked now acts (record { timeouts = p ++ x ∷ l; fresh = f }) g
        ∙ ap (λ q. record { timeouts = q; fresh = f + length acts })
            (sym (append_assoc (asked now f acts) p (x ∷ l))) in
      rw (e, added, deref-behind x p' l a) (kept x.repeat p' a)
    where
      kept :
          (b : Bool) (p' : List Timeout)
          → Avoids x.address p'
          → ◌≡◌ {A = Option (Option ℕ × Timeouts × W)}
              (some (
                first l,
                if b
                    then record { timeouts = p' ++ x ∷ l; fresh = f + length (call x w).1 }
                    else del_timeout x.address
                        (record { timeouts = p' ++ x ∷ l; fresh = f + length (call x w).1 }),
                (call x w).0,
              ))
              (some (
                first l,
                record {
                  timeouts = p' ++ (if b then x ∷ l else l);
                  fresh = f + length (call x w).1;
                },
                (call x w).0,
              ))
      kept true p' a = refl
      kept false p' a = rw (unlink-behind x p' l a) refl

  -- The rest of the walk, when a timeout before it stays or not.
  walk-behind :
      (now n f : ℕ) (p l : List Timeout) (x : Timeout) (w : W)
      → ((q : List Timeout)
          → IsApart q l
          → walk call now n (first l) (record { timeouts = q ++ l; fresh = f }) w
            ≡ some (Outcome now f q l w))
      → IsApart p l
      → Avoids x.address l
      → (b : Bool)
      → walk call now n (first l) (record { timeouts = p ++ (if b then x ∷ l else l); fresh = f }) w
        ≡ some (Outcome now f (p ++ (if b then x ∷ [] else [])) l w)
  walk-behind now n f p l x w ih q c true =
      ap (λ k. walk call now n (first l) (record { timeouts = k; fresh = f }) w)
        (sym (append_assoc p (x ∷ []) l))
      ∙ ih (p ++ x ∷ []) (snoc-IsApart p l x q c)
  walk-behind now n f p l x w ih q c false =
      ih p q ∙ ap (λ k. some (Outcome now f k l w)) (sym (append-nil p))

  -- What a due timeout in front adds to the outcome.
  Outcome-due :
      (now f : ℕ) (p l : List Timeout) (x : Timeout) (w : W)
      → IsAdding (call x w).1
      → ltb now x.timeout ≡ false
      → Outcome now
          (f + length (call x w).1)
          ((asked now f (call x w).1 ++ p) ++ (if x.repeat then x ∷ [] else []))
          l
          (call x w).0
        ≡ Outcome now f p (x ∷ l) w
  unfolding call_all
  Outcome-due now f p l x w g e =
      let acts = (call x w).1 in
      let due = keep_if (is_due now) l in
      let (u, rest) = call_all due (call x w).0 in
      let front = asked now (f + length acts) rest in
      let kept = keep_if (stays now) l in
      let result : ℕ → W × Timeouts = λ n. (
        u,
        record {
          timeouts = (front ++ asked now f acts) ++ (p ++ (if x.repeat then x ∷ kept else kept));
          fresh = n;
        },
      ) in
      rw
        (
          e,
          asked-++ now f acts rest g,
          length-append acts rest,
          regroup x.repeat front (asked now f acts) p kept x,
        )
        (ap result (omega arith))

  module _ (adding : (to : Timeout) (w : W) → IsAdding (call to w).1) where
    walk-outcome :
        (now n f : ℕ) (p l : List Timeout) (w : W)
        → length l ≤ n
        → IsApart p l
        → IsBelow f l
        → walk call now n (first l) (record { timeouts = p ++ l; fresh = f }) w
          ≡ some (Outcome now f p l w)
    unfolding walk call_all
    walk-outcome now n f p [] w h a b =
        ap (λ k. some (w, record { timeouts = p ++ []; fresh = k })) (omega arith)
    walk-outcome now zero f p (x ∷ l) w h a b = absurd (omega (arith, h))
    walk-outcome now (suc n) f p (x ∷ l) w h (a, q) (lt, c, b) =
        elim (Bool-cases (ltb now x.timeout)) [
          | inl e ↦
              let ts : Timeouts = record { timeouts = p ++ x ∷ l; fresh = f } in
              walk-turn now n x.address ts ts w w (first l) (rw (deref-behind x p l a, e) refl)
              ∙ (ap (λ k. walk call now n (first l) (record { timeouts = k; fresh = f }) w)
                    (sym (append_assoc p (x ∷ []) l))
                  ∙ (walk-outcome now n f (p ++ x ∷ []) l w (omega (arith, h))
                        (snoc-IsApart p l x q c) b
                      ∙ rw (e, append_assoc p (x ∷ []) (keep_if (stays now) l)) refl))
          | inr e ↦
              let acts = (call x w).1 in
              let p' = asked now f acts ++ p in
              let away : Avoids x.address p' =
                Avoids-++ x.address (asked now f acts) p (asked-Avoids now f x.address acts lt) a in
              let apart : IsApart p' l = asked-IsApart now f acts p l b q in
              let ih : (q' : List Timeout)
                  → IsApart q' l
                  → walk call now n (first l)
                      (record { timeouts = q' ++ l; fresh = f + length acts }) (call x w).0
                    ≡ some (Outcome now (f + length acts) q' l (call x w).0) =
                λ q' k.
                  walk-outcome now n (f + length acts) q' l (call x w).0 (omega (arith, h)) k
                    (IsBelow-weaken f (length acts) l b) in
              let ts : Timeouts = record { timeouts = p ++ x ∷ l; fresh = f } in
              let ts' : Timeouts = record {
                timeouts = p' ++ (if x.repeat then x ∷ l else l);
                fresh = f + length acts;
              } in
              walk-turn now n x.address ts ts' w (call x w).0 (first l)
                (rw (deref-behind x p l a) (visit-due now f p l x w (adding x w) e away))
              ∙ (walk-behind now n (f + length acts) p' l x (call x w).0 ih apart c x.repeat
                  ∙ ap some (Outcome-due now f p l x w (adding x w) e))
        ]

    -- The addresses of the timeouts are different and were all given out before, the fuel is as much as
    -- there are timeouts, and the routines only add timeouts. Then check_timeouts ends and reads no
    -- timeout that is freed. It calls the routines of the timeouts that are due, each once and in the
    -- order of the list, and no others, so that no timeout added meanwhile is looked at; the list is
    -- then the added ones, the last one first, and behind them every timeout that is not due or
    -- repeats, in order.
    pub check_timeouts-call_all :
        (now n : ℕ) (ts : Timeouts) (w : W)
        → length ts.timeouts ≤ n
        → IsBelow ts.fresh ts.timeouts
        → (u : W) (acts : List Action) → call_all (keep_if (is_due now) ts.timeouts) w ≡ (u, acts)
        → check_timeouts call now n ts w
          ≡ some (
            u,
            record {
              timeouts = asked now ts.fresh acts ++ keep_if (stays now) ts.timeouts;
              fresh = ts.fresh + length acts;
            },
          )
    unfolding check_timeouts
    check_timeouts-call_all now n ts w h b u acts e =
        walk-outcome now n ts.fresh [] ts.timeouts w h (apart ts.timeouts) b
        ∙ ap
            (λ (r : W × List Action). some (
              r.0,
              record {
                timeouts = asked now ts.fresh r.1 ++ keep_if (stays now) ts.timeouts;
                fresh = ts.fresh + length r.1;
              },
            ))
            e
      where
        apart : (l : List Timeout) → IsApart [] l
        apart [] = tt
        apart (x ∷ l) = (tt, apart l)
