-- ===== src/Cache/Chain.antt =====
-- The nodes of a chain, as a list of addresses.
use oftc_blitzed.Base.{
  ℕ, ◌<◌, ◌≤◌, ◌≡◌, ◌≢◌, refl, false, List, [], ◌∷◌, Option, none, some, arith, ◌==◌, if◌then◌else◌,
  mem, All,
}
use oftc_blitzed.Cache.{Cache, hash}

-- From `a` the links lead through the nodes of the list to the head.
abbrev pub Segment : Cache → ℕ → ℕ → List ℕ → Type 0
Segment c head a [] = a ≡ head
Segment c head a (x ∷ l) = (a ≡ x) × (x ≢ head) × Segment c head (c.node x).next l

-- The IDs rise strictly, from above `low` on.
abbrev pub Rising : Cache → ℕ → List ℕ → Type 0
Rising c low [] = Unit
Rising c low (x ∷ l) = (low < (c.node x).nick_id) × Rising c (c.node x).nick_id l

abbrev pub entry_in : Cache → ℕ → List ℕ → Option ℕ
entry_in c id [] = none
entry_in c id (x ∷ l) = if (c.node x).nick_id == id then some x else entry_in c id l

-- A cache whose chains hold the nodes of `chain`.
pub record IsCache (c : Cache) (chain : ℕ → List ℕ) : Type 0 where
  pub heads_zero : (b : ℕ) → b < 151 → (c.node (c.heads b)).nick_id ≡ 0
  pub heads_differ : (b d : ℕ) → b < 151 → d < 151 → c.heads b ≡ c.heads d → b ≡ d
  pub heads_old : (b : ℕ) → b < 151 → c.heads b < c.fresh
  pub segment : (b : ℕ) → b < 151 → Segment c (c.heads b) (c.node (c.heads b)).next (chain b)
  pub rising : (b : ℕ) → b < 151 → Rising c 0 (chain b)
  pub placed :
      (b : ℕ) → b < 151 → All (λ x. (hash (c.node x).nick_id ≡ b) × (x < c.fresh)) (chain b)

-- What the cache says of a nick.
abbrev pub entry : Cache → (ℕ → List ℕ) → ℕ → Option ℕ
entry c chain id = entry_in c id (chain (hash id))

abbrev pub Same : Cache → Cache → List ℕ → Type 0
Same c d l = All (λ x. d.node x ≡ c.node x) l

pub Segment-Same :
    (c d : Cache) (head a : ℕ) (l : List ℕ) → Same c d l → Segment c head a l → Segment d head a l
Segment-Same c d head a [] s h = h
Segment-Same c d head a (x ∷ l) (e, s) (p, q, h) =
    (p, q, Segment-Same c d head (d.node x).next l s (rw e h))

pub Rising-Same :
    (c d : Cache) (low : ℕ) (l : List ℕ) → Same c d l → Rising c low l → Rising d low l
Rising-Same c d low [] s h = tt
Rising-Same c d low (x ∷ l) (e, s) (p, h) =
    (rw e p, rw e (Rising-Same c d (c.node x).nick_id l s h))

pub entry_in-Same :
    (c d : Cache) (id : ℕ) (l : List ℕ) → Same c d l → entry_in d id l ≡ entry_in c id l
entry_in-Same c d id [] s = refl
entry_in-Same c d id (x ∷ l) (e, s) = rw (e, entry_in-Same c d id l s)

-- Nothing below or at the bound is in a list that rises from there.
pub entry_in-low :
    (c : Cache) (low id : ℕ) (l : List ℕ) → Rising c low l → id ≤ low → entry_in c id l ≡ none
entry_in-low c low id [] h k = refl
entry_in-low c low id (x ∷ l) (p, h) k =
    ground (arith, p, k, entry_in-low c (c.node x).nick_id id l h)

-- An address whose ID is at most the bound is not in the list.
pub mem-low :
    (c : Cache) (low y : ℕ) (l : List ℕ)
    → Rising c low l
    → (c.node y).nick_id ≤ low
    → mem y l ≡ false
mem-low c low y [] h k = refl
mem-low c low y (x ∷ l) (p, h) k = ground (arith, p, k, mem-low c (c.node x).nick_id y l h)
