-- ===== src/Channel/Members/Removal.antt =====
-- Who is on the channel's lists after somebody has come or gone.
use oftc_blitzed.Base.{
  mem, not, ◌&&◌, ℕ, ◌≡◌, refl, ◌≢◌, Bool, true, false, List, [], ◌∷◌, arith, ◌==◌, if◌then◌else◌,
  none, ◌↔◌,
}
use oftc_blitzed.Access.{Facts, check_should_op, check_should_voice}
use oftc_blitzed.Channel.Defs.{Channel}
use oftc_blitzed.Channel.Events.{check_autolimit}
use oftc_blitzed.Channel.Members.{
  remove, leave_lists, after_leaving, add_lists, chan_adduser, chan_deluser,
}

-- No user stands in the list twice.
abbrev pub Distinct : List ℕ → Type 0
Distinct [] = Unit {0}
Distinct (u ∷ l) = (mem u l ≡ false) × Distinct l

abbrev pub Within : List ℕ → List ℕ → Type 0
Within l m = (u : ℕ) → mem u l ≡ true → mem u m ≡ true

-- The lists of a channel: each user once, and operators and voiced users are on the channel.
pub record IsConsistent (c : Channel) : Type 0 where
  pub users_distinct : Distinct c.users
  pub ops_distinct : Distinct c.chanops
  pub voices_distinct : Distinct c.voices
  pub ops_within : Within c.chanops c.users
  pub voices_within : Within c.voices c.users

mem-remove :
    (u v : ℕ) (l : List ℕ) → Distinct l → mem v (remove u l) ≡ (if v == u then false else mem v l)
unfolding remove
mem-remove u v [] d = ground arith
mem-remove u v (w ∷ l) d = ground (arith, mem-remove u v l d.1)

Distinct-remove : (u : ℕ) (l : List ℕ) → Distinct l → Distinct (remove u l)
unfolding remove
Distinct-remove u [] d = tt
Distinct-remove u (w ∷ l) d = ground (arith, Distinct-remove u l d.1, mem-remove u w l d.1)

Within-remove :
    (u : ℕ) (l m : List ℕ) → Distinct l → Distinct m → Within l m → Within (remove u l) (remove u m)
Within-remove u l m dl dm w v h = ground (arith, mem-remove u v l dl, mem-remove u v m dm, w v)

add_lists-IsConsistent :
    (should_op should_voice : Bool) (u : ℕ) (c : Channel)
    → IsConsistent c
    → mem u c.users ≡ false
    → IsConsistent (add_lists should_op should_voice u c)
unfolding add_lists
add_lists-IsConsistent true should_voice u c k h = record {
  users_distinct = (h, k.users_distinct);
  ops_distinct = (ground (arith, k.ops_within u), k.ops_distinct);
  voices_distinct = k.voices_distinct;
  ops_within = λ v m. ground (arith, k.ops_within v);
  voices_within = λ v m. ground (arith, k.voices_within v);
}
add_lists-IsConsistent false true u c k h = record {
  users_distinct = (h, k.users_distinct);
  ops_distinct = k.ops_distinct;
  voices_distinct = (ground (arith, k.voices_within u), k.voices_distinct);
  ops_within = λ v m. ground (arith, k.ops_within v);
  voices_within = λ v m. ground (arith, k.voices_within v);
}
add_lists-IsConsistent false false u c k h = record {
  users_distinct = (h, k.users_distinct);
  ops_distinct = k.ops_distinct;
  voices_distinct = k.voices_distinct;
  ops_within = λ v m. ground (arith, k.ops_within v);
  voices_within = λ v m. ground (arith, k.voices_within v);
}

is_off : (u : ℕ) (l m : List ℕ) → Within l m → mem u m ≡ false → mem u l ≡ false
is_off u l m w h = ground (arith, w u, h)

add_lists-mem :
    (should_op should_voice : Bool) (u : ℕ) (c : Channel)
    → mem u c.chanops ≡ false
    → mem u c.voices ≡ false
    → (mem u (add_lists should_op should_voice u c).chanops ≡ should_op)
      × (mem u (add_lists should_op should_voice u c).voices ≡ (not should_op && should_voice))
unfolding add_lists
add_lists-mem true should_voice u c h k = (ground arith, ground (arith, k))
add_lists-mem false true u c h k = (ground (arith, h), ground arith)
add_lists-mem false false u c h k = (ground (arith, h), ground (arith, k))

-- A user who comes to a channel that he is not on leaves its lists in order, and is an operator
-- there exactly if check_should_op says so, and voiced exactly if that does not and
-- check_should_voice does.
pub chan_adduser-IsConsistent :
    (f : Facts) (u : ℕ) (c : Channel)
    → IsConsistent c
    → mem u c.users ≡ false
    → IsConsistent (chan_adduser f u c)
      × (mem u (chan_adduser f u c).chanops ≡ check_should_op f c.name)
      × (mem u (chan_adduser f u c).voices
          ≡ (not (check_should_op f c.name) && check_should_voice f c.name))
unfolding chan_adduser
chan_adduser-IsConsistent f u c k h =
    let op = check_should_op f c.name in
    let voice = check_should_voice f c.name in
    let m =
      add_lists-mem op voice u c (is_off u c.chanops c.users k.ops_within h)
        (is_off u c.voices c.users k.voices_within h) in
    (add_lists-IsConsistent op voice u c k h, m.0, m.1)

-- A user who leaves is in none of the three lists afterwards, everybody else is where he was, and
-- the lists stay in order.
pub leave_lists-IsConsistent :
    (u : ℕ) (c : Channel)
    → IsConsistent c
    → IsConsistent (leave_lists u c)
      × ((v : ℕ) → mem v (leave_lists u c).users ≡ (if v == u then false else mem v c.users))
      × ((v : ℕ) → mem v (leave_lists u c).chanops ≡ (if v == u then false else mem v c.chanops))
      × ((v : ℕ) → mem v (leave_lists u c).voices ≡ (if v == u then false else mem v c.voices))
unfolding leave_lists
leave_lists-IsConsistent u c k = (
  record {
    users_distinct = Distinct-remove u c.users k.users_distinct;
    ops_distinct = Distinct-remove u c.chanops k.ops_distinct;
    voices_distinct = Distinct-remove u c.voices k.voices_distinct;
    ops_within = Within-remove u c.chanops c.users k.ops_distinct k.users_distinct k.ops_within;
    voices_within =
        Within-remove u c.voices c.users k.voices_distinct k.users_distinct k.voices_within;
  },
  λ v. mem-remove u v c.users k.users_distinct,
  λ v. mem-remove u v c.chanops k.ops_distinct,
  λ v. mem-remove u v c.voices k.voices_distinct,
)

none_left {ℓ} : {A : Type ℓ} (l : List ℕ) (a : A) → after_leaving l a ≡ none → l ≡ []
unfolding after_leaving
none_left [] a e = refl
none_left (v ∷ l) a e = cc

-- The channel is freed exactly when nobody else was on it, provided that nobody is on it twice.
pub chan_deluser-none_iff :
    (now u : ℕ) (c : Channel)
    → Distinct c.users
    → (chan_deluser now u c ≡ none) ↔ ((v : ℕ) → v ≢ u → mem v c.users ≡ false)
unfolding chan_deluser after_leaving leave_lists
chan_deluser-none_iff now u c d =
    (λ e v h. gone v h (none_left (remove u c.users) _ e), λ e. freed (remove u c.users) refl e)
  where
    gone : (v : ℕ) → v ≢ u → remove u c.users ≡ [] → mem v c.users ≡ false
    gone v h e =
        let m : mem v (remove u c.users) ≡ false = rw e in ground (arith, mem-remove u v c.users d)

    freed :
        (l : List ℕ)
        → remove u c.users ≡ l
        → ((v : ℕ) → v ≢ u → mem v c.users ≡ false)
        → after_leaving l (check_autolimit now false (leave_lists u c)) ≡ none
    freed [] e h = refl
    freed (w ∷ l) e h =
        let m : mem w (remove u c.users) ≡ true = rw e (ground arith) in
        ground (arith, mem-remove u w c.users d, h w)
