-- ===== src/Servers/Examples.antt =====
-- A hub with two leaves, one of which is a hub itself.
use oftc_blitzed.Base.{
  ℕ, ◌≡◌, refl, sym, ap, ◌∙◌, true, [], ◌∷◌, Option, none, some, arith, codes, Bytes, mem, ◌==◌,
  if◌then◌else◌,
}
use oftc_blitzed.Servers.{
  put, new_server, do_server, Server, Servers, findserver, search, add_child, do_squit,
}
use oftc_blitzed.Servers.Forest.{leaf, tree}
use oftc_blitzed.Servers.Siblings.{Siblings}
use oftc_blitzed.Servers.Squit.{IsLinked, HasLeft, do_squit-HasLeft}
use oftc_blitzed.Servers.Find.{IsTable, findserver-search}
use oftc_blitzed.Servers.Join.{HasJoined, do_server-HasJoined}
use oftc_blitzed.Servers.Root.{do_squit-dangling}
use oftc_blitzed.Text.{stricmp, tolower}

abbrev server : Bytes → Option ℕ → Option ℕ → Option ℕ → Server
server name hub child sibling = record { name = name; hub = hub; child = child; sibling = sibling }

-- a has the children b and d, and b has the child c.
abbrev network : Servers
network = record {
  node = λ n.
      if n == 0
      then some (server (codes "a") none (some 1) none)
      else if n == 1
      then some (server (codes "b") (some 0) (some 2) (some 3))
      else if n == 2
      then some (server (codes "c") (some 1) none none)
      else if n == 3
      then some (server (codes "d") (some 0) none none)
      else none;
  serverlist = 3 ∷ 2 ∷ 1 ∷ 0 ∷ [];
  servercnt = 4;
  lastserver = none;
  fresh = 4;
}

abbrev found_b : Servers
found_b = record network { lastserver = some 1 }

find_b : findserver (codes "B") network ≡ some (some 1, found_b)
unfolding findserver search stricmp tolower
find_b = refl

b-IsLinked : IsLinked found_b 1 0 (2 ∷ []) (1 ∷ 3 ∷ [])
b-IsLinked = record {
  server = server (codes "b") (some 0) (some 2) (some 3);
  at = refl;
  to_hub = refl;
  hub_server = server (codes "a") none (some 1) none;
  at_hub = refl;
  siblings = (
    refl,
    (
      server (codes "b") (some 0) (some 2) (some 3),
      refl,
      (refl, (server (codes "d") (some 0) none none, refl, refl)),
    ),
  );
  is_child = refl;
  below = tree refl leaf leaf refl;
  distinct = ((refl, tt), (refl, (refl, (refl, tt))));
  apart = λ x m. ground (arith, m);
}

do_squit-HasLeft_example :
    (c' : Servers) × (do_squit 9 (codes "B") network ≡ some c')
    × HasLeft found_b 1 0 (2 ∷ []) (1 ∷ 3 ∷ []) c'
do_squit-HasLeft_example =
    do_squit-HasLeft 9 (codes "B") network found_b 1 0 (2 ∷ []) (1 ∷ 3 ∷ []) find_b b-IsLinked
      (omega arith) (omega arith)

abbrev found_a : Servers
found_a = record network { lastserver = some 0 }

find_a : findserver (codes "a") network ≡ some (some 0, found_a)
unfolding findserver search stricmp tolower
find_a = refl

do_squit-dangling_example :
    (c' : Servers) × (do_squit 9 (codes "a") network ≡ some c')
    × (c'.node 0 ≡ some (server (codes "a") none (some 1) none))
    × (c'.node 1 ≡ none)
    × ((more new : ℕ) → add_child more 0 new c' ≡ none)
do_squit-dangling_example =
    do_squit-dangling 9 (codes "a") network found_a 0 1 (server (codes "a") none (some 1) none)
      (2 ∷ 1 ∷ 3 ∷ []) find_a refl refl refl
      (tree refl (tree refl leaf leaf refl) (tree refl leaf leaf refl) refl)
      (refl, (refl, (refl, (refl, tt)))) (omega arith)

abbrev alone : Servers
alone = record {
  node = λ n. if n == 0 then some (server (codes "a") none none none) else none;
  serverlist = 0 ∷ [];
  servercnt = 1;
  lastserver = some 0;
  fresh = 1;
}

only : (a : ℕ) → mem a (0 ∷ []) ≡ true → a ≡ 0
only a m = ground (arith, m)

alone-IsTable : IsTable alone
alone-IsTable = record {
  alive = λ a m. (server (codes "a") none none none, ground (arith, m));
  unique = λ name a b m n p q. only a m ∙ sym (only b n);
  last = λ a e. ap (λ o. mem (the o) (0 ∷ [])) (sym e);
  distinct = (refl, tt);
}
  where
    the : Option ℕ → ℕ
    the none = 0
    the (some a) = a

findserver-search_example :
    (r : Option ℕ) × (c' : Servers) × (findserver (codes "b") alone ≡ some (r, c'))
    × (search (codes "b") alone.node alone.serverlist ≡ some r)
    × (c'.node ≡ alone.node)
findserver-search_example = findserver-search (codes "b") alone alone-IsTable

-- e is linked to a.
with_e :
    findserver (codes "a") (new_server (codes "e") network)
    ≡ some (some 0, record (new_server (codes "e") network) { lastserver = some 0 })
unfolding findserver search stricmp tolower new_server put
with_e = refl

children_of_a : Siblings network.node (some 1) (1 ∷ 3 ∷ [])
children_of_a = (
  refl,
  (
    server (codes "b") (some 0) (some 2) (some 3),
    refl,
    (refl, (server (codes "d") (some 0) none none, refl, refl)),
  ),
)

do_server-HasJoined_example :
    (c' : Servers) × (do_server 3 (codes "a") (codes "e") network ≡ some c')
    × HasJoined network 0 4 (codes "e") (1 ∷ 3 ∷ []) c'
do_server-HasJoined_example =
    do_server-HasJoined 3 b'a' [] (codes "e") network
      (record (new_server (codes "e") network) { lastserver = some 0 }) 0
      (server (codes "a") none (some 1) none) (1 ∷ 3 ∷ []) with_e refl children_of_a
      (refl, (refl, (refl, tt))) refl (omega arith)
