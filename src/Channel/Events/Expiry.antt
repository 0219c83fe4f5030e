-- ===== src/Channel/Events/Expiry.antt =====
-- The bans that chan_update_events leaves.
use oftc_blitzed.Base.{
  ℕ, ◌+◌, ◌*◌, ◌%◌, ◌≤◌, ◌≡◌, ◌≢◌, refl, sym, ap, ap₂, subst, ◌∙◌, inl, inr, true, false, not, List,
  [], ◌∷◌, arith, ltb, keep_if, All, Bytes, Bool-cases,
}
use oftc_blitzed.Channel.Defs.{Channel, Ban}
use oftc_blitzed.Text.{str_eq}
use oftc_blitzed.Channel.Modes.{Env, remove_ban}
use oftc_blitzed.Channel.Lock.{Mlock, Command}
use oftc_blitzed.Channel.Lock.Bans.{do_cmode-bans}
use oftc_blitzed.Channel.Events.{
  is_old, to_remove, remove_bans, update_channel, adjust_limit, clear_bans, check_autolimit,
}

-- The bans stand in the order of their times, as +b appends them.
abbrev pub InOrder : List Ban → Type 0
InOrder [] = Unit
InOrder (b ∷ bans) = All (λ d. b.time ≤ d.time) bans × InOrder bans

remove_masks : List Bytes → List Ban → List Ban
remove_masks [] bans = bans
remove_masks (m ∷ l) bans = remove_masks l (remove_ban m bans)

remove_bans-masks :
    (env : Env) (lock : Mlock) (l : List Bytes) (c : Channel) (sent : List Command)
    → (remove_bans env lock l (c, sent)).0.bans ≡ remove_masks l c.bans
unfolding remove_bans remove_masks
remove_bans-masks env lock [] c sent = refl
remove_bans-masks env lock (m ∷ l) c sent =
    remove_bans-masks env lock l _ _ ∙ ap (remove_masks l) (do_cmode-bans env lock m [] c)

none_old :
    (now bantime t : ℕ) (bans : List Ban)
    → ltb (t + (bantime * 60) % 4294967296) now ≡ false
    → All (λ d. t ≤ d.time) bans
    → to_remove now bantime bans ≡ []
unfolding to_remove
none_old now bantime t [] h a = refl
none_old now bantime t (b ∷ bans) h (le, a) = ground (arith, none_old now bantime t bans h a)

young :
    (now bantime t : ℕ) (bans : List Ban)
    → ltb (t + (bantime * 60) % 4294967296) now ≡ false
    → All (λ d. t ≤ d.time) bans
    → keep_if (λ b. not (is_old now bantime b)) bans ≡ bans
young now bantime t [] h a = refl
young now bantime t (b ∷ bans) h (le, a) = ground (arith, young now bantime t bans h a)

str_eq_refl : (s : Bytes) → str_eq s s ≡ true
str_eq_refl [] = refl
str_eq_refl (c ∷ s) = ground (arith, str_eq_refl s)

remove_ban-head : (b : Ban) (bans : List Ban) → remove_ban b.mask (b ∷ bans) ≡ bans
unfolding remove_ban
remove_ban-head b bans = rw (str_eq_refl b.mask)

remove_masks-to_remove :
    (now bantime : ℕ) (bans : List Ban)
    → InOrder bans
    → remove_masks (to_remove now bantime bans) bans
      ≡ keep_if (λ b. not (is_old now bantime b)) bans
unfolding remove_masks to_remove
remove_masks-to_remove now bantime [] o = refl
remove_masks-to_remove now bantime (b ∷ bans) (a, o) = elim (Bool-cases (is_old now bantime b)) [
  | inl e ↦ rw e (
      ap (remove_masks (to_remove now bantime bans)) (remove_ban-head b bans)
      ∙ remove_masks-to_remove now bantime bans o)
  | inr e ↦ rw (e, none_old now bantime b.time bans e a, young now bantime b.time bans e a)
]

adjust_limit-bans : (now : ℕ) (c : Channel) → (adjust_limit now c).0.bans ≡ c.bans
unfolding adjust_limit check_autolimit
adjust_limit-bans now c = ground arith

adjust_limit-bantime : (now : ℕ) (c : Channel) → (adjust_limit now c).0.bantime ≡ c.bantime
unfolding adjust_limit check_autolimit
adjust_limit-bantime now c = ground arith

clear_bans-bans :
    (env : Env) (lock : Mlock) (d : Channel) (sent : List Command)
    → d.bantime ≢ 0
    → InOrder d.bans
    → (clear_bans env lock (d, sent)).0.bans
      ≡ keep_if (λ b. not (is_old env.now d.bantime b)) d.bans
unfolding clear_bans
clear_bans-bans env lock d sent t o =
    let e =
      remove_bans-masks env lock (to_remove env.now d.bantime d.bans) d sent
      ∙ remove_masks-to_remove env.now d.bantime d.bans o in
    ground (arith, t, e)

-- On a registered channel whose bans are to be cleared after `bantime` minutes, and stand in the
-- order in which they were set, the bans that chan_update_events leaves are exactly those that are
-- not that old yet, in the same order, whatever the mode lock does meanwhile.
pub update_channel-bans :
    (env : Env) (lock : Mlock) (c : Channel)
    → c.channel_id ≢ 0
    → c.bantime ≢ 0
    → InOrder c.bans
    → (update_channel env lock c).0.bans ≡ keep_if (λ b. not (is_old env.now c.bantime b)) c.bans
unfolding update_channel
update_channel-bans env lock c i t o =
    let b = adjust_limit-bans env.now c in
    let p = adjust_limit-bantime env.now c in
    let e : (clear_bans env lock (adjust_limit env.now c)).0.bans
        ≡ keep_if (λ x. not (is_old env.now c.bantime x)) c.bans =
      clear_bans-bans env lock (adjust_limit env.now c).0 (adjust_limit env.now c).1
        (λ z. t (sym p ∙ z)) (subst InOrder (sym b) o)
      ∙ ap₂ (λ k l. keep_if (λ x. not (is_old env.now k x)) l) p b in
    ground (arith, i, e)
