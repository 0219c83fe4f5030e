-- ===== src/Cache/Insert.antt =====
-- Where nickcache_insert puts a new node.
use oftc_blitzed.Base.{
  ℕ, zero, suc, ◌<◌, ◌≡◌, ◌≢◌, refl, sym, ap, subst, ◌∙◌, true, false, List, [], ◌∷◌, none, some,
  arith, ◌==◌, if◌then◌else◌, ltb, length, mem, All, inl, inr, Bool-cases,
}
use oftc_blitzed.Cache.{Node, Cache, put, place, link}
use oftc_blitzed.Cache.Chain.{Segment, Rising, entry_in, Same, Segment-Same, mem-low}

-- The node behind which the ID goes, and the chain with it.
abbrev pub before : Cache → ℕ → ℕ → List ℕ → ℕ
before c id prev [] = prev
before c id prev (x ∷ l) = if ltb (c.node x).nick_id id then before c id x l else prev

abbrev pub insert_at : Cache → ℕ → ℕ → List ℕ → List ℕ
insert_at c new id [] = new ∷ []
insert_at c new id (x ∷ l) =
    if ltb (c.node x).nick_id id then x ∷ insert_at c new id l else new ∷ x ∷ l

pub place-before :
    (fuel : ℕ) (c : Cache) (head id prev a : ℕ) (l : List ℕ)
    → Segment c head a l
    → length l < fuel
    → place fuel c head id prev a ≡ some (before c id prev l)
unfolding place
place-before zero c head id prev a l s f = ground arith
place-before (suc n) c head id prev a [] s f = ground (arith, s)
place-before (suc n) c head id prev a (x ∷ l) (e, d, s) f =
    rw e (ground (arith, d, place-before n c head id x (c.node x).next l s (omega (arith, f))))

pub mem-before : (c : Cache) (id prev : ℕ) (l : List ℕ) → mem (before c id prev l) (prev ∷ l) ≡ true
mem-before c id prev [] = ground arith
mem-before c id prev (x ∷ l) = ground (arith, mem-before c id x l)

-- What a link leaves alone.
pub link-other :
    (prev new : ℕ) (n : Node) (c : Cache) (y : ℕ)
    → y ≢ prev
    → y ≢ new
    → (link prev new n c).node y ≡ c.node y
unfolding link put
link-other prev new n c y p q = ground (arith, p, q)

pub link-new :
    (prev new : ℕ) (n : Node) (c : Cache)
    → prev ≢ new
    → (link prev new n c).node new ≡ record n { next = (c.node prev).next }
unfolding link put
link-new prev new n c p = ground (arith, p)

pub link-prev :
    (prev new : ℕ) (n : Node) (c : Cache)
    → prev ≢ new
    → (link prev new n c).node prev ≡ record (c.node prev) { next = new }
unfolding link put
link-prev prev new n c p = ground (arith, p)

link-Same :
    (prev new : ℕ) (n : Node) (c : Cache) (l : List ℕ)
    → mem prev l ≡ false
    → mem new l ≡ false
    → Same c (link prev new n c) l
link-Same prev new n c [] p q = tt
link-Same prev new n c (x ∷ l) p q = (
  link-other prev new n c x (ground (arith, p)) (ground (arith, q)),
  link-Same prev new n c l (ground (arith, p)) (ground (arith, q)),
)

-- Each node of a chain occurs once.
abbrev pub Once : List ℕ → Type 0
Once [] = Unit
Once (x ∷ l) = (mem x l ≡ false) × Once l

pub Rising-Once : (c : Cache) (low : ℕ) (l : List ℕ) → Rising c low l → Once l
Rising-Once c low [] h = tt
Rising-Once c low (x ∷ l) (p, h) =
    (mem-low c (c.node x).nick_id x l h (omega arith), Rising-Once c (c.node x).nick_id l h)

link-Segment :
    (prev new : ℕ) (n : Node) (c : Cache) (head a : ℕ) (l : List ℕ)
    → Segment c head a l
    → (c.node prev).next ≡ a
    → mem prev l ≡ false
    → mem new l ≡ false
    → prev ≢ new
    → new ≢ head
    → Segment (link prev new n c) head ((link prev new n c).node prev).next (new ∷ l)
link-Segment prev new n c head a l s e o m d h = (
  ap (λ k. k.next) (link-prev prev new n c d),
  h,
  subst (λ b. Segment (link prev new n c) head b l)
      (sym (ap (λ k. k.next) (link-new prev new n c d) ∙ e))
      (Segment-Same c (link prev new n c) head a l (link-Same prev new n c l o m) s),
)

not_mem : (x y : ℕ) (l : List ℕ) → mem x l ≡ false → mem y l ≡ true → x ≢ y
not_mem x y l h k e = ground (arith, rw e at h, k)

pub insert_at-Segment :
    (c : Cache) (n : Node) (head new id prev a : ℕ) (l : List ℕ)
    → Segment c head a l
    → (c.node prev).next ≡ a
    → Once (prev ∷ l)
    → mem new (prev ∷ l) ≡ false
    → new ≢ head
    → Segment
        (link (before c id prev l) new n c)
        head
        ((link (before c id prev l) new n c).node prev).next
        (insert_at c new id l)
insert_at-Segment c n head new id prev a [] s e o m h =
    link-Segment prev new n c head a [] s e refl refl (ground (arith, m)) h
insert_at-Segment c n head new id prev a (x ∷ l) (q, d, s) e (o, p) m h =
    elim (Bool-cases (ltb (c.node x).nick_id id)) [
      | inl t ↦
          let b = before c id x l in
          let stay =
            link-other b new n c prev (not_mem prev b (x ∷ l) o (mem-before c id x l))
              (ground (arith, m)) in
          rw t (
            ap (λ k. k.next) stay ∙ e ∙ q,
            d,
            insert_at-Segment c n head new id x (c.node x).next l s refl p (ground (arith, m)) h,
          )
      | inr t ↦ rw t (
          link-Segment prev new n c head a (x ∷ l) (q, d, s) e o (ground (arith, m))
            (ground (arith, m)) h)
    ]

pub link-nick_id :
    (prev new : ℕ) (n : Node) (c : Cache) (y : ℕ)
    → y ≢ new
    → ((link prev new n c).node y).nick_id ≡ (c.node y).nick_id
unfolding link put
link-nick_id prev new n c y q = ground (arith, q)

-- The IDs of the old nodes are what they were.
abbrev pub SameIds : Cache → Cache → List ℕ → Type 0
SameIds c d l = All (λ x. (d.node x).nick_id ≡ (c.node x).nick_id) l

Rising-ids : (c d : Cache) (low : ℕ) (l : List ℕ) → Rising c low l → SameIds c d l → Rising d low l
Rising-ids c d low [] r s = tt
Rising-ids c d low (x ∷ l) (p, r) (e, s) = (rw e p, rw e (Rising-ids c d (c.node x).nick_id l r s))

pub entry_in-ids :
    (c d : Cache) (k : ℕ) (l : List ℕ) → SameIds c d l → entry_in d k l ≡ entry_in c k l
entry_in-ids c d k [] s = refl
entry_in-ids c d k (x ∷ l) (e, s) = rw (e, entry_in-ids c d k l s)

pub insert_at-Rising :
    (c d : Cache) (new id low : ℕ) (l : List ℕ)
    → Rising c low l
    → low < id
    → entry_in c id l ≡ none
    → (d.node new).nick_id ≡ id
    → SameIds c d l
    → Rising d low (insert_at c new id l)
insert_at-Rising c d new id low [] r p e q s = (rw q p, tt)
insert_at-Rising c d new id low (x ∷ l) (r, t) p e q (k, s) =
    elim (Bool-cases (ltb (c.node x).nick_id id)) [
      | inl u ↦ rw u (
        rw k r,
        rw k (
            insert_at-Rising c d new id (c.node x).nick_id l t (ground (arith, u))
              (ground (arith, e, u)) q s),
      )
      | inr u ↦
          let v : id < (c.node x).nick_id = ground (arith, e, u) in
          rw u (rw q p, (rw (q, k) v, rw k (Rising-ids c d (c.node x).nick_id l t s)))
    ]

pub insert_at-entry_in :
    (c d : Cache) (new id k : ℕ) (l : List ℕ)
    → (d.node new).nick_id ≡ id
    → SameIds c d l
    → entry_in d k (insert_at c new id l) ≡ (if id == k then some new else entry_in c k l)
insert_at-entry_in c d new id k [] q s = ground (arith, q)
insert_at-entry_in c d new id k (x ∷ l) q (e, s) =
    ground (arith, q, e, insert_at-entry_in c d new id k l q s, entry_in-ids c d k l s)
