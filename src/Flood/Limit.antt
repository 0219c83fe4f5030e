-- ===== src/Flood/Limit.antt =====
-- From the first line to the one that makes a flood.
use oftc_blitzed.Base.{
  ℕ, ◌+◌, ◌<◌, ◌≡◌, ◌≢◌, refl, sym, ap, subst, ◌∙◌, true, false, not, List, [], ◌∷◌, ◌++◌, none,
  some, arith, leb, Bytes, length, take, codes, All, Bool-cases, inl, inr, zero, suc,
}
use oftc_blitzed.Text.{strlower, stricmp, is_zero, strscpy}
use oftc_blitzed.Text.Fold.{stricmp_refl}
use oftc_blitzed.Akill.{Akills, is_present}
use oftc_blitzed.Flood.{
  Flooder, TxtFlood, Config, Chan, World, kill_user, mask_of, fs_add_akill, mark, has_host,
  add_floodtxt, add_floodtxt_user, is_old, expire_floodtxt, is_text, find_text, judge, again, said,
}
use oftc_blitzed.Flood.Texts.{
  find_text-keep_if-none, ArePresent, kill_user-killed, kill_user-akills, fs_add_akill-ArePresent,
}
use oftc_blitzed.Flood.Run.{
  Line, say, say_all, IsLine, IsHeard, say-said, say-judge, step-IsHeard, again-repeat,
  again-flooder, All-has_host,
}

-- Hosts that differ only in case have one mask.
strlower-take : (n : ℕ) (s : Bytes) → strlower (take n s) ≡ take n (strlower s)
unfolding strlower
strlower-take zero s = refl
strlower-take (suc n) [] = refl
strlower-take (suc n) (c ∷ s) = rw (strlower-take n s) refl

strlower-++ : (s t : Bytes) → strlower (s ++ t) ≡ strlower s ++ strlower t
unfolding strlower
strlower-++ [] t = refl
strlower-++ (c ∷ s) t = rw (strlower-++ s t) refl

stricmp-strlower : (s t : Bytes) → is_zero (stricmp s t) ≡ true → strlower s ≡ strlower t
unfolding stricmp strlower
stricmp-strlower [] [] h = refl
stricmp-strlower [] (d ∷ t) h = absurd (cc)
stricmp-strlower (c ∷ s) [] h = absurd (cc)
stricmp-strlower (c ∷ s) (d ∷ t) h = ground (arith, stricmp-strlower s t)

strlower-mask_of :
    (s t : Bytes) → is_zero (stricmp s t) ≡ true → strlower (mask_of s) ≡ strlower (mask_of t)
unfolding strscpy strlower
strlower-mask_of s t h =
    let same : strlower (codes "*@" ++ s) ≡ strlower (codes "*@" ++ t) =
      rw (strlower-++ (codes "*@") s, strlower-++ (codes "*@") t)
        (ap (λ x. strlower (codes "*@") ++ x) (stricmp-strlower s t h)) in
    strlower-take 1023 (codes "*@" ++ s)
    ∙ ap (take 1023) same
    ∙ sym (strlower-take 1023 (codes "*@" ++ t))

-- A host that is linked has its mask in the table, when all linked hosts have.
has_host-present :
    (h : Bytes) (l : List Flooder) (t : Akills)
    → has_host h l ≡ true
    → ArePresent l t
    → is_present (strlower (mask_of h)) t.rows ≡ true
unfolding has_host
has_host-present h [] t e a = absurd (cc)
has_host-present h (f ∷ l) t e (p, a) = elim (Bool-cases (is_zero (stricmp h f.host))) [
  | inl g ↦ subst (λ m. is_present m t.rows ≡ true) (sym (strlower-mask_of h f.host g)) p
  | inr g ↦ has_host-present h l t (rw (has_host, g) at e) a
]

-- The hosts of lines, the last one first, before others.
abbrev pub hosts_of : List Line → List Bytes → List Bytes
hosts_of [] hosts = hosts
hosts_of (m ∷ l) hosts = hosts_of l (m.client.host ∷ hosts)

All-hosts_of :
    (P : Bytes → Type 0) (l : List Line) (hosts : List Bytes)
    → All P (hosts_of l hosts)
    → All (λ m. P m.client.host) l × All P hosts
All-hosts_of P [] hosts a = (tt, a)
All-hosts_of P (m ∷ l) hosts a =
    let (p, (q, r)) = All-hosts_of P l (m.client.host ∷ hosts) a in ((q, p), r)

hosts-present :
    (l : List Flooder) (t : Akills) (hosts : List Bytes)
    → All (λ h. has_host h l ≡ true) hosts
    → ArePresent l t
    → All (λ h. is_present (strlower (mask_of h)) t.rows ≡ true) hosts
hosts-present l t [] a p = tt
hosts-present l t (h ∷ hosts) (e, a) p = (has_host-present h l t e p, hosts-present l t hosts a p)

module _ (cfg : Config) (chan : Chan) (text : Bytes) (t0 : ℕ) (w0 : World) where
  -- The line in which the text is heard for the first time.
  first-IsHeard :
      (m : Line)
      → IsLine cfg chan text t0 w0 m
      → chan.floodserv ≡ true
      → m.now ≡ t0
      → find_text chan.channel_id text w0.flood ≡ none
      → IsHeard cfg chan text t0 w0 1 (m.client.host ∷ []) (say cfg chan m w0)
  unfolding add_floodtxt add_floodtxt_user has_host find_text
  first-IsHeard m v f e n =
      let x : TxtFlood = record {
        flooder = [];
        txtbuffer = text;
        time = m.now;
        repeat = 1;
        warned = false;
        chanid = chan.channel_id;
      } in
      let y = add_floodtxt_user m.client x in
      let w' = record w0 { flood = expire_floodtxt cfg m.now w0.flood } in
      let none_left =
        find_text-keep_if-none chan.channel_id text (λ z. not (is_old cfg m.now z)) w0.flood n in
      let matches : is_text chan.channel_id text y ≡ true = ground (arith, stricmp_refl text) in
      let result : say cfg chan m w0 ≡ record w' { flood = y ∷ w'.flood } =
        say-said cfg chan text t0 w0 m w0 v f refl
        ∙ (ap (said cfg m.now m.source m.client chan.channel_id text w') none_left ∙ refl) in
      subst (IsHeard cfg chan text t0 w0 1 (m.client.host ∷ [])) (sym result) (record {
        entry = y;
        found = rw matches refl;
        matches = matches;
        repeat = refl;
        time = e;
        unwarned = refl;
        no_akill = (refl, tt);
        few = omega arith;
        heard = (rw (stricmp_refl m.client.host) refl, tt);
        same = (refl, refl, refl, refl);
      })

  pub run-IsHeard :
      (l : List Line) (k : ℕ) (hosts : List Bytes) (w : World)
      → IsHeard cfg chan text t0 w0 k hosts w
      → All (IsLine cfg chan text t0 w0) l
      → chan.floodserv ≡ true
      → k + length l < cfg.num_lines
      → IsHeard cfg chan text t0 w0 (k + length l) (hosts_of l hosts) (say_all cfg chan l w)
  unfolding say_all
  run-IsHeard [] k hosts w h v f n =
      subst (λ j. IsHeard cfg chan text t0 w0 j hosts w) (omega arith) h
  run-IsHeard (m ∷ l) k hosts w h (p, v) f n =
      subst
        (λ j.
          IsHeard cfg chan text t0 w0 j (hosts_of l (m.client.host ∷ hosts))
            (say_all cfg chan l (say cfg chan m w)))
        (omega arith)
        (run-IsHeard l (k + 1) (m.client.host ∷ hosts) (say cfg chan m w)
          (step-IsHeard cfg chan text t0 w0 k hosts m w h p f (omega (arith, n))) v f
          (omega (arith, n)))

  say_all-IsHeard :
      (m : Line) (l : List Line)
      → All (IsLine cfg chan text t0 w0) (m ∷ l)
      → chan.floodserv ≡ true
      → m.now ≡ t0
      → find_text chan.channel_id text w0.flood ≡ none
      → length (m ∷ l) < cfg.num_lines
      → IsHeard cfg chan text t0 w0
          (length (m ∷ l))
          (hosts_of (m ∷ l) [])
          (say_all cfg chan (m ∷ l) w0)
  unfolding say_all
  say_all-IsHeard m l (p, v) f e n b =
      subst
        (λ j.
          IsHeard cfg chan text t0 w0 j (hosts_of (m ∷ l) [])
            (say_all cfg chan l (say cfg chan m w0)))
        (omega arith)
        (run-IsHeard l 1 (m.client.host ∷ []) (say cfg chan m w0) (first-IsHeard m p f e n) v f
          (omega (arith, b)))

  -- A text that is new to FloodServ is said on a channel it watches, from the time of the first
  -- line on and within the seconds of a flood, by users who are online and no opers. As long as the
  -- lines are fewer than those of a flood, nothing is done: nobody is killed, no AKILL is added,
  -- nothing is sent, and FloodServ has counted each line.
  pub say_all-below :
      (m : Line) (l : List Line)
      → All (IsLine cfg chan text t0 w0) (m ∷ l)
      → chan.floodserv ≡ true
      → m.now ≡ t0
      → find_text chan.channel_id text w0.flood ≡ none
      → length (m ∷ l) < cfg.num_lines
      → let w = say_all cfg chan (m ∷ l) w0 in
        (w.online ≡ w0.online)
        × (w.akills ≡ w0.akills)
        × (w.killed ≡ w0.killed)
        × (w.sent ≡ w0.sent)
        × ((x : TxtFlood) × (find_text chan.channel_id text w.flood ≡ some x)
            × (x.repeat ≡ length (m ∷ l)))
  say_all-below m l v f e n b =
      let h = say_all-IsHeard m l v f e n b in
      let (a, c, d, s) = h.same in (a, c, d, s, (h.entry, h.found, h.repeat))

  -- The line that makes it a flood, when FloodServ does not warn first.
  flood-akills :
      (k : ℕ) (hosts : List Bytes) (z : Line) (w : World)
      → IsHeard cfg chan text t0 w0 k hosts w
      → IsLine cfg chan text t0 w0 z
      → chan.floodserv ≡ true
      → cfg.num_lines ≡ k + 1
      → cfg.warn_first ≡ false
      → length w0.akills.rows + cfg.num_lines < 32768
      → All
          (λ h. is_present (strlower (mask_of h)) (say cfg chan z w).akills.rows ≡ true)
          (z.client.host ∷ hosts)
  unfolding judge
  flood-akills k hosts z w h q f n g r =
      let x = again z.client h.entry in
      let a = again-repeat cfg chan text t0 w0 z.client h.entry in
      let b = again-flooder cfg chan text t0 w0 z.client h.entry in
      let w' = record w { flood = expire_floodtxt cfg z.now w.flood } in
      let high : leb cfg.num_lines x.repeat ≡ true = ground (arith, a.0, h.repeat, n) in
      let soon : leb z.now (x.time + cfg.sec) ≡ true = ground (arith, a.1, h.time, q.in_time) in
      let after = fs_add_akill cfg (cfg.akill_expiry + z.now) x.flooder w' in
      let judgement : judge cfg z.now z.source x w'
          ≡ (record x { flooder = mark x.flooder }, after) =
        rw (judge, high, soon, g) refl in
      let result : (say cfg chan z w).akills ≡ after.akills =
        ap (λ v. v.akills) (say-judge cfg chan text t0 w0 k hosts z w h q f)
        ∙ ap (λ (p : TxtFlood × World). p.1.akills) judgement in
      let room : length w'.akills.rows + length x.flooder < 32768 =
        omega (arith, b.1, h.few, r, n, ap (λ t. length t.rows) h.same.1) in
      let (p, _) =
        fs_add_akill-ArePresent cfg (cfg.akill_expiry + z.now) x.flooder w' (b.2 h.no_akill) room in
      subst
        (λ t. All (λ o. is_present (strlower (mask_of o)) t.rows ≡ true) (z.client.host ∷ hosts))
        (sym result)
        (hosts-present x.flooder after.akills (z.client.host ∷ hosts)
          (b.0, All-has_host cfg chan text t0 w0 z.client h.entry hosts h.heard) p)

  -- The same when it does: the user who says the line is killed.
  flood-warns :
      (k : ℕ) (hosts : List Bytes) (z : Line) (w : World)
      → IsHeard cfg chan text t0 w0 k hosts w
      → IsLine cfg chan text t0 w0 z
      → z.source ≢ []
      → chan.floodserv ≡ true
      → cfg.num_lines ≡ k + 1
      → cfg.warn_first ≡ true
      → ((say cfg chan z w).killed ≡ z.source ∷ w0.killed) × ((say cfg chan z w).akills ≡ w0.akills)
  unfolding judge
  flood-warns k hosts z w h q o f n g =
      let x = again z.client h.entry in
      let a = again-repeat cfg chan text t0 w0 z.client h.entry in
      let w' = record w { flood = expire_floodtxt cfg z.now w.flood } in
      let high : leb cfg.num_lines x.repeat ≡ true = ground (arith, a.0, h.repeat, n) in
      let soon : leb z.now (x.time + cfg.sec) ≡ true = ground (arith, a.1, h.time, q.in_time) in
      let new : x.warned ≡ false = a.2 ∙ h.unwarned in
      let judgement : judge cfg z.now z.source x w'
          ≡ (record x { warned = true }, kill_user z.source w') =
        rw (judge, high, soon, g, new) refl in
      let said_so = say-judge cfg chan text t0 w0 k hosts z w h q f in
      let (_, akills_same, killed_same, _) = h.same in
      (
        ap (λ v. v.killed) said_so
            ∙ (ap (λ (p : TxtFlood × World). p.1.killed) judgement
                ∙ (kill_user-killed z.source w' o ∙ ap (λ l. z.source ∷ l) killed_same)),
        ap (λ v. v.akills) said_so
            ∙ (ap (λ (p : TxtFlood × World). p.1.akills) judgement
                ∙ (kill_user-akills z.source w' ∙ akills_same)),
      )

  -- A text that is new to FloodServ is said on a channel it watches, from the time of the first
  -- line on and within the seconds of a flood, by users who are online and no opers. FloodServ does
  -- not warn first, and the table of AKILLs has room for an AKILL for each line. With the line that
  -- makes the number of a flood, which takes two lines or more, the host of every user who said one
  -- of the lines has an AKILL.
  pub say_all-akills :
      (m : Line) (l : List Line) (z : Line)
      → All (IsLine cfg chan text t0 w0) (m ∷ l)
      → IsLine cfg chan text t0 w0 z
      → chan.floodserv ≡ true
      → m.now ≡ t0
      → find_text chan.channel_id text w0.flood ≡ none
      → cfg.num_lines ≡ length (m ∷ l) + 1
      → cfg.warn_first ≡ false
      → length w0.akills.rows + cfg.num_lines < 32768
      → All
          (λ y.
            is_present
              (strlower (mask_of y.client.host))
              (say cfg chan z (say_all cfg chan (m ∷ l) w0)).akills.rows
            ≡ true)
          (z ∷ m ∷ l)
  say_all-akills m l z v q f e n b g r =
      let h = say_all-IsHeard m l v f e n (omega (arith, b)) in
      let w = say_all cfg chan (m ∷ l) w0 in
      let (p, rest) = flood-akills (length (m ∷ l)) (hosts_of (m ∷ l) []) z w h q f b g r in
      (
        p,
        (All-hosts_of (λ o. is_present (strlower (mask_of o)) (say cfg chan z w).akills.rows ≡ true)
            (m ∷ l) [] rest).0,
      )

  -- The same text, when FloodServ warns first: with the line that makes the number of a flood the
  -- user who says it, and nobody else, is killed, and no AKILL is added.
  pub say_all-warns :
      (m : Line) (l : List Line) (z : Line)
      → All (IsLine cfg chan text t0 w0) (m ∷ l)
      → IsLine cfg chan text t0 w0 z
      → z.source ≢ []
      → chan.floodserv ≡ true
      → m.now ≡ t0
      → find_text chan.channel_id text w0.flood ≡ none
      → cfg.num_lines ≡ length (m ∷ l) + 1
      → cfg.warn_first ≡ true
      → let w = say cfg chan z (say_all cfg chan (m ∷ l) w0) in
        (w.killed ≡ z.source ∷ w0.killed) × (w.akills ≡ w0.akills)
  say_all-warns m l z v q o f e n b g =
      flood-warns (length (m ∷ l)) (hosts_of (m ∷ l) []) z (say_all cfg chan (m ∷ l) w0)
        (say_all-IsHeard m l v f e n (omega (arith, b))) q o f b g
