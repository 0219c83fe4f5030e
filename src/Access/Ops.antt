-- ===== src/Access/Ops.antt =====
-- How the decisions to give and to take the operator's mode agree.
use oftc_blitzed.Base.{◌≡◌, refl, Bool, true, false, arith, Bytes, inl, inr, Bool-cases}
use oftc_blitzed.Access.{
  ℤ, pos, negsuc, leqℤ, access_founder, Facts, autoop, autodeop, get_access, check_access,
  check_valid_op, should_have, check_should_op,
}

leqℤ_trans : (a b c : ℤ) → leqℤ a b ≡ true → leqℤ b c ≡ true → leqℤ a c ≡ true
unfolding leqℤ
leqℤ_trans (pos a) (pos b) (pos c) h k = ground (arith, h, k)
leqℤ_trans (pos a) (pos b) (negsuc c) h k = ground (arith, h, k)
leqℤ_trans (pos a) (negsuc b) c h k = ground (arith, h, k)
leqℤ_trans (negsuc a) b (pos c) h k = refl
leqℤ_trans (negsuc a) (pos b) (negsuc c) h k = ground (arith, h, k)
leqℤ_trans (negsuc a) (negsuc b) (negsuc c) h k = ground (arith, h, k)

should_have-inv :
    (f : Facts) (chan : Bytes)
    → check_should_op f chan ≡ true
    → (check_access f autoop ≡ true)
      × (f.verboten ≡ false)
      × (leqℤ (f.get_chan_level autoop) (pos 0) ≡ false)
unfolding check_should_op should_have
should_have-inv f chan h = (ground (arith, h), ground (arith, h), ground (arith, h))

-- With an access level of at least 1, a user is not deopped at a deop level below 1.
no_autodeop :
    (f : Facts)
    → leqℤ (get_access f) (pos 0) ≡ false
    → leqℤ (f.get_chan_level autodeop) (pos 0) ≡ true
    → check_access f autodeop ≡ false
unfolding check_access
no_autodeop f h d =
    ground (arith, h, d, leqℤ_trans (get_access f) (f.get_chan_level autodeop) (pos 0))

founder_positive : leqℤ access_founder (pos 0) ≡ false
unfolding leqℤ
founder_positive = refl

has_access :
    (f : Facts)
    → check_access f autoop ≡ true
    → leqℤ (f.get_chan_level autoop) (pos 0) ≡ false
    → leqℤ (get_access f) (pos 0) ≡ false
unfolding check_access
has_access f h l = elim (Bool-cases (leqℤ (get_access f) (pos 0))) [
  | inl e ↦
      let t = leqℤ_trans access_founder (get_access f) (pos 0) in
      let u = leqℤ_trans (f.get_chan_level autoop) (get_access f) (pos 0) in
      ground (arith, h, l, e, t, u, founder_positive)
  | inr e ↦ e
]

-- Whoever ChanServ ops when he joins may keep it: if check_should_op answers 1, then so does
-- check_valid_op, whether a server or somebody else sets the mode, provided that the channel's
-- level for being deopped is below 1.
pub check_should_op-valid :
    (f : Facts) (chan : Bytes) (serverop : Bool)
    → leqℤ (f.get_chan_level autodeop) (pos 0) ≡ true
    → check_should_op f chan ≡ true
    → check_valid_op f serverop ≡ true
unfolding check_valid_op
check_should_op-valid f chan serverop d h =
    let (a, v, l) = should_have-inv f chan h in
    let n = no_autodeop f (has_access f a l) d in ground (arith, a, v, n)
