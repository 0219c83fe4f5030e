-- ===== src/Flood/Run.antt =====
-- A text that is said again and again.
use oftc_blitzed.Base.{
  ℕ, ◌+◌, ◌<◌, ◌≤◌, ◌≡◌, refl, sym, ap, subst, ◌∙◌, true, false, not, List, [], ◌∷◌, some, arith,
  leb, Bytes, length, All, Bool-cases, inl, inr,
}
use oftc_blitzed.Text.Fold.{stricmp_refl}
use oftc_blitzed.Flood.{
  TxtFlood, Config, Client, Chan, World, strstrip, finduser, has_host, add_floodtxt_user, is_old,
  expire_floodtxt, is_text, find_text, judge, put_text, again, said, privmsg_flood,
}
use oftc_blitzed.Flood.Texts.{find_text-keep_if, find_text-set_text}

-- A line on the channel, and who says it.
pub record Line : Type 0 where
  pub now : ℕ
  pub source : Bytes
  pub text : Bytes
  pub client : Client

pub say : Config → Chan → Line → World → World
say cfg chan m w = privmsg_flood cfg m.now m.source (some chan) m.text w

unfoldable pub say_all : Config → Chan → List Line → World → World
unfolding say
say_all cfg chan [] w = w
say_all cfg chan (m ∷ l) w = say_all cfg chan l (say cfg chan m w)

module _ (cfg : Config) (chan : Chan) (text : Bytes) (t0 : ℕ) (w0 : World) where
  -- The line comes from a user who is online and no oper, within the time, and is the text but for
  -- spaces and the like.
  pub record IsLine (m : Line) : Type 0 where
    pub online : finduser m.source w0.online ≡ some m.client
    pub no_oper : m.client.oper ≡ false
    pub in_time : m.now ≤ t0 + cfg.sec
    pub same_text : strstrip m.text ≡ text

  -- The text has been heard k times, and nothing has been done about it.
  pub record IsHeard (k : ℕ) (hosts : List Bytes) (w : World) : Type 0 where
    pub entry : TxtFlood
    pub found : find_text chan.channel_id text w.flood ≡ some entry
    pub matches : is_text chan.channel_id text entry ≡ true
    pub repeat : entry.repeat ≡ k
    pub time : entry.time ≡ t0
    pub unwarned : entry.warned ≡ false
    pub no_akill : All (λ f. f.akilled ≡ false) entry.flooder
    pub few : length entry.flooder ≤ k
    pub heard : All (λ h. has_host h entry.flooder ≡ true) hosts
    pub same :
        (w.online ≡ w0.online)
        × (w.akills ≡ w0.akills)
        × (w.killed ≡ w0.killed)
        × (w.sent ≡ w0.sent)

  pub fresh :
      (x : TxtFlood) (now : ℕ)
      → now ≤ t0 + cfg.sec
      → x.time ≡ t0
      → x.warned ≡ false
      → not (is_old cfg now x) ≡ true
  fresh x now h e f = ground (arith, h, e, f)

  -- What `again` does to the entry.
  pub again-repeat :
      (u : Client) (x : TxtFlood)
      → ((again u x).repeat ≡ x.repeat + 1)
        × ((again u x).time ≡ x.time)
        × ((again u x).warned ≡ x.warned)
        × ((again u x).chanid ≡ x.chanid)
        × ((again u x).txtbuffer ≡ x.txtbuffer)
  unfolding add_floodtxt_user
  again-repeat u x = elim (Bool-cases (has_host u.host x.flooder)) [
    | inl h ↦ rw (add_floodtxt_user, h) (refl, refl, refl, refl, refl)
    | inr h ↦ rw (add_floodtxt_user, h) (refl, refl, refl, refl, refl)
  ]

  has_host-again :
      (u : Client) (x : TxtFlood) (h : Bytes)
      → has_host h x.flooder ≡ true
      → has_host h (again u x).flooder ≡ true
  unfolding add_floodtxt_user has_host
  has_host-again u x h e = elim (Bool-cases (has_host u.host x.flooder)) [
    | inl g ↦ rw (add_floodtxt_user, g) e
    | inr g ↦ rw (add_floodtxt_user, g) (ground (arith, e))
  ]

  pub again-flooder :
      (u : Client) (x : TxtFlood)
      → (has_host u.host (again u x).flooder ≡ true)
        × (length (again u x).flooder ≤ length x.flooder + 1)
        × (All (λ f. f.akilled ≡ false) x.flooder
            → All (λ f. f.akilled ≡ false) (again u x).flooder)
  unfolding add_floodtxt_user has_host
  again-flooder u x = elim (Bool-cases (has_host u.host x.flooder)) [
    | inl g ↦ rw (add_floodtxt_user, g) (g, omega arith, λ a. a)
    | inr g ↦ rw (add_floodtxt_user, g) (rw (stricmp_refl u.host) refl, omega arith, λ a. (refl, a))
  ]

  pub All-has_host :
      (u : Client) (x : TxtFlood) (l : List Bytes)
      → All (λ h. has_host h x.flooder ≡ true) l
      → All (λ h. has_host h (again u x).flooder ≡ true) l
  All-has_host u x [] a = tt
  All-has_host u x (h ∷ l) (e, a) = (has_host-again u x h e, All-has_host u x l a)

  pub say-said :
      (m : Line) (w : World)
      → IsLine m
      → chan.floodserv ≡ true
      → w.online ≡ w0.online
      → say cfg chan m w
        ≡ said cfg m.now m.source m.client chan.channel_id text
            (record w { flood = expire_floodtxt cfg m.now w.flood })
            (find_text chan.channel_id text (expire_floodtxt cfg m.now w.flood))
  unfolding say privmsg_flood
  say-said m w v f o =
      let e : finduser m.source w.online ≡ some m.client = ap (finduser m.source) o ∙ v.online in
      rw (say, privmsg_flood, e, v.no_oper, f, v.same_text) refl

  -- A line in which the text is heard again.
  pub say-judge :
      (k : ℕ) (hosts : List Bytes) (m : Line) (w : World) (h : IsHeard k hosts w)
      → IsLine m
      → chan.floodserv ≡ true
      → say cfg chan m w
        ≡ put_text chan.channel_id text (
            judge cfg m.now m.source
              (again m.client h.entry)
              (record w { flood = expire_floodtxt cfg m.now w.flood }))
  say-judge k hosts m w h v f =
      say-said m w v f h.same.0
      ∙ ap
          (said cfg m.now m.source m.client chan.channel_id text
            (record w { flood = expire_floodtxt cfg m.now w.flood }))
          (find_text-keep_if chan.channel_id text (λ x. not (is_old cfg m.now x)) w.flood h.entry
            h.found (fresh h.entry m.now v.in_time h.time h.unwarned))

  pub is_text-again :
      (u : Client) (x : TxtFlood)
      → is_text chan.channel_id text x ≡ true
      → is_text chan.channel_id text (again u x) ≡ true
  is_text-again u x e = let a = again-repeat u x in rw (a.3, a.4) e

  -- Below the number of lines that counts as a flood a line is only counted.
  pub step-IsHeard :
      (k : ℕ) (hosts : List Bytes) (m : Line) (w : World)
      → IsHeard k hosts w
      → IsLine m
      → chan.floodserv ≡ true
      → k + 1 < cfg.num_lines
      → IsHeard (k + 1) (m.client.host ∷ hosts) (say cfg chan m w)
  unfolding judge
  step-IsHeard k hosts m w h v f p =
      let x = again m.client h.entry in
      let a = again-repeat m.client h.entry in
      let b = again-flooder m.client h.entry in
      let low : leb cfg.num_lines x.repeat ≡ false = ground (arith, a.0, h.repeat, p) in
      let w' = record w { flood = expire_floodtxt cfg m.now w.flood } in
      let result : say cfg chan m w ≡ put_text chan.channel_id text (x, w') =
        say-judge k hosts m w h v f ∙ ap (put_text chan.channel_id text) (rw (judge, low) refl) in
      subst (IsHeard (k + 1) (m.client.host ∷ hosts)) (sym result) (record {
        entry = x;
        found =
            find_text-set_text chan.channel_id text (expire_floodtxt cfg m.now w.flood) h.entry x
              (find_text-keep_if chan.channel_id text (λ y. not (is_old cfg m.now y)) w.flood
                h.entry h.found (fresh h.entry m.now v.in_time h.time h.unwarned))
              (is_text-again m.client h.entry h.matches);
        matches = is_text-again m.client h.entry h.matches;
        repeat = a.0 ∙ ap (λ n. n + 1) h.repeat;
        time = a.1 ∙ h.time;
        unwarned = a.2 ∙ h.unwarned;
        no_akill = b.2 h.no_akill;
        few = omega (arith, b.1, h.few);
        heard = (b.0, All-has_host m.client h.entry hosts h.heard);
        same = h.same;
      })
