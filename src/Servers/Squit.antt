-- ===== src/Servers/Squit.antt =====
-- A server that leaves: its children go with it, and its hub loses one child.
use oftc_blitzed.Base.{
  ℕ, ◌<◌, ◌≡◌, refl, sym, subst, ◌∙◌, true, false, List, [], ◌∷◌, none, some, arith, ◌==◌,
  if◌then◌else◌, mem, length, Bool-cases, inl, inr, Bytes,
}
use oftc_blitzed.Servers.{
  Server, Servers, put, remove, delete_server, findserver, recursive_squit, unlink, do_squit,
}
use oftc_blitzed.Servers.Forest.{
  Forest, Distinct, delete_all, delete_all-node, squit_from-Forest, mem-other,
}
use oftc_blitzed.Servers.Siblings.{Siblings, Siblings-node, HasLost, unlink-HasLost}

-- A server `a` below `hub`: the servers `l` are behind it, and `k` are the children of the hub. No
-- server stands in two places.
pub record IsLinked (c : Servers) (a hub : ℕ) (l k : List ℕ) : Type 0 where
  pub server : Server
  pub at : c.node a ≡ some server
  pub to_hub : server.hub ≡ some hub
  pub hub_server : Server
  pub at_hub : c.node hub ≡ some hub_server
  pub siblings : Siblings c.node hub_server.child k
  pub is_child : mem a k ≡ true
  pub below : Forest c.node server.child l
  pub distinct : Distinct l × Distinct (hub ∷ k)
  pub apart : (x : ℕ) → mem x l ≡ true → mem x (hub ∷ k) ≡ false

pub record HasLeft (c : Servers) (a hub : ℕ) (l k : List ℕ) (c' : Servers) : Type 0 where
  pub gone : (b : ℕ) → mem b (a ∷ l) ≡ true → c'.node b ≡ none
  pub others : (b : ℕ) → mem b (a ∷ l) ≡ false → mem b (hub ∷ k) ≡ false → c'.node b ≡ c.node b
  pub hub' : Server
  pub at_hub : c'.node hub ≡ some hub'
  pub children : Siblings c'.node hub'.child (remove a k)

not_in :
    (l r : List ℕ) (x : ℕ)
    → ((y : ℕ) → mem y l ≡ true → mem y r ≡ false)
    → mem x r ≡ true
    → mem x l ≡ false
not_in l r x f m = elim (Bool-cases (mem x l)) [ inl e ↦ absurd (cc (f x e)) | inr e ↦ e ]

mem-remove : (a b : ℕ) (k : List ℕ) → mem b (remove a k) ≡ true → mem b k ≡ true
unfolding remove
mem-remove a b [] m = m
mem-remove a b (x ∷ k) m = ground (arith, m, mem-remove a b k)

remove-gone : (a : ℕ) (k : List ℕ) → Distinct k → mem a (remove a k) ≡ false
unfolding remove
remove-gone a [] d = refl
remove-gone a (x ∷ k) (n, d) = elim (Bool-cases (x == a)) [
  | inl e ↦ rw e (let q : x ≡ a = ground (arith, e) in subst (λ y. mem y k ≡ false) q n)
  | inr e ↦ rw (e, e) (remove-gone a k d)
]

deleted : (a : ℕ) (c : Servers) → (delete_server a c).node a ≡ none
unfolding delete_server put
deleted a c = ground arith

not_deleted : (a b : ℕ) (c : Servers) → (b == a) ≡ false → (delete_server a c).node b ≡ c.node b
unfolding delete_server put
not_deleted a b c n = rw n refl

module _ (c : Servers) (a hub : ℕ) (l k : List ℕ) (v : IsLinked c a hub l k) where
  unlinked_node : (b : ℕ) → mem b (hub ∷ k) ≡ true → (delete_all l c).node b ≡ c.node b
  unlinked_node b m = delete_all-node l c b ∙ rw (not_in l (hub ∷ k) b v.apart m) refl

  in_k : (b : ℕ) → mem b k ≡ true → mem b (hub ∷ k) ≡ true
  in_k b m = ground (arith, m)

  lost :
      (fuel : ℕ)
      → length k < fuel
      → (c' : Servers) × (unlink fuel hub a (delete_all l c) ≡ some c')
        × HasLost (delete_all l c) hub a k c'
  lost fuel p =
      unlink-HasLost fuel hub a (delete_all l c) v.hub_server k
        (unlinked_node hub (ground arith) ∙ v.at_hub)
        (Siblings-node c.node (delete_all l c).node v.hub_server.child k
          (λ x m. unlinked_node x (in_k x m)) v.siblings)
        v.is_child v.distinct.1 p

  not_below : (b : ℕ) → mem b (a ∷ l) ≡ false → (if mem b l then none else c.node b) ≡ c.node b
  not_below b n = let q : mem b l ≡ false = ground (arith, n) in rw q refl

  left_behind :
      (c' : Servers)
      → HasLost (delete_all l c) hub a k c'
      → (b : ℕ) → mem b (a ∷ l) ≡ true
      → (delete_server a c').node b ≡ none
  left_behind c' w b m = elim (Bool-cases (b == a)) [
    | inl e ↦
        let q : b ≡ a = ground (arith, e) in
        subst (λ y. (delete_server a c').node y ≡ none) (sym q) (deleted a c')
    | inr e ↦
        let ml : mem b l ≡ true = ground (arith, e, m) in
        not_deleted a b c' e ∙ w.others b (v.apart b ml) ∙ delete_all-node l c b ∙ rw ml refl
  ]

  finish :
      (c' : Servers)
      → HasLost (delete_all l c) hub a k c'
      → HasLeft c a hub l k (delete_server a c')
  finish c' w = record {
    gone = left_behind c' w;
    others = λ b n o.
        not_deleted a b c' (ground (arith, n))
        ∙ w.others b o
        ∙ delete_all-node l c b
        ∙ not_below b n;
    hub' = w.hub';
    at_hub =
        not_deleted a hub c' (ground (arith, mem-other hub a k v.distinct.1.0 v.is_child))
        ∙ w.at_hub;
    children =
        Siblings-node c'.node (delete_server a c').node w.hub'.child (remove a k)
          (λ y m.
            not_deleted a y c' (mem-other a y (remove a k) (remove-gone a k v.distinct.1.1) m))
          w.children;
  }

-- SQUIT of a server that findserver finds and that is linked to a hub, by links in which
-- no server stands twice, ends, with fuel for the servers behind it and for the
-- children of the hub, and takes away the server and all that is linked behind it. The hub keeps its
-- other children, in their order; a server that is neither the hub nor a child of it nor behind the
-- one that leaves stays as it was. No server is read after it has been freed.
pub do_squit-HasLeft :
    (fuel : ℕ) (name : Bytes) (c c0 : Servers) (a hub : ℕ) (l k : List ℕ)
    → findserver name c ≡ some (some a, c0)
    → IsLinked c0 a hub l k
    → length l < fuel
    → length k < fuel
    → (c' : Servers) × (do_squit fuel name c ≡ some c') × HasLeft c0 a hub l k c'
unfolding do_squit recursive_squit
do_squit-HasLeft fuel name c c0 a hub l k e v p q =
    let (c', u, w) = lost c0 a hub l k v fuel q in
    let below = squit_from-Forest fuel v.server.child c0 l v.below v.distinct.0 p in
    let still : (delete_all l c0).node a ≡ some v.server =
      unlinked_node c0 a hub l k v a (in_k c0 a hub l k v a v.is_child) ∙ v.at in
    (
      delete_server a c',
      rw (do_squit, e, recursive_squit, v.at, below, still, v.to_hub, u) refl,
      finish c0 a hub l k v c' w,
    )
