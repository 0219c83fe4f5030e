-- ===== src/Servers/Root.antt =====
-- SQUIT of a server without a hub.
use oftc_blitzed.Base.{
  ℕ, zero, suc, ◌<◌, ◌≡◌, refl, ap, subst, ◌∙◌, true, List, ◌∷◌, Option, none, some, arith, mem,
  length, Bytes,
}
use oftc_blitzed.Servers.{
  Server, Servers, findserver, last_sibling, add_child, recursive_squit, do_squit,
}
use oftc_blitzed.Servers.Forest.{
  Forest, tree, Distinct, delete_all, delete_all-node, squit_from-Forest, mem-append,
}

root_mem : {node : ℕ → Option Server} {k : ℕ} {l : List ℕ} → Forest node (some k) l → mem k l ≡ true
root_mem (tree {a} {l = cs} {r} e f g q) = ap (mem a) q ∙ ground (arith, mem-append a cs (a ∷ r))

add_child-freed :
    (fuel a server k : ℕ) (c : Servers) (s : Server)
    → c.node a ≡ some s
    → s.child ≡ some k
    → c.node k ≡ none
    → add_child fuel a server c ≡ none
unfolding add_child last_sibling
add_child-freed zero a server k c s e f g = rw (add_child, e, f) refl
add_child-freed (suc n) a server k c s e f g = rw (add_child, e, f, last_sibling, g) refl

-- SQUIT of a server that has no hub but children, none of them twice in its links, ends; the children are freed, but the server
-- stays and still points to the first of them, so that linking another server to it reads freed
-- memory.
pub do_squit-dangling :
    (fuel : ℕ) (name : Bytes) (c c0 : Servers) (a k : ℕ) (s : Server) (l : List ℕ)
    → findserver name c ≡ some (some a, c0)
    → c0.node a ≡ some s
    → s.hub ≡ none
    → s.child ≡ some k
    → Forest c0.node s.child l
    → Distinct (a ∷ l)
    → length l < fuel
    → (c' : Servers) × (do_squit fuel name c ≡ some c')
      × (c'.node a ≡ some s)
      × (c'.node k ≡ none)
      × ((more server : ℕ) → add_child more a server c' ≡ none)
unfolding do_squit recursive_squit
do_squit-dangling fuel name c c0 a k s l e at h q f (n, d) p =
    let c' = delete_all l c0 in
    let below = squit_from-Forest fuel s.child c0 l f d p in
    let stays : c'.node a ≡ some s = delete_all-node l c0 a ∙ rw n at in
    let freed : c'.node k ≡ none =
      delete_all-node l c0 k ∙ rw (root_mem (subst (λ o. Forest c0.node o l) q f)) refl in
    (
      c',
      rw (do_squit, e, recursive_squit, at, below, stays, h) refl,
      stays,
      freed,
      λ more server. add_child-freed more a server k c' s stays q freed,
    )
