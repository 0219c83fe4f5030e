-- ===== src/Servers.antt =====
-- src/servers.c: the servers of the network. Addresses are numbers; a freed server is no longer in
-- `node`, and reading it ends in `none`, as does running out of fuel. The doubly linked list behind
-- serverlist is a list of addresses. servercnt is an int16, by its residue.
pub mod Forest
pub mod Find
pub mod Siblings
pub mod Squit
pub mod Root
pub mod Join
mod Examples
use oftc_blitzed.Base.{
  ℕ, zero, suc, ◌+◌, ◌%◌, Bool, true, false, List, [], ◌∷◌, Option, none, some, ◌==◌, if◌then◌else◌,
  Bytes,
}
use oftc_blitzed.Text.{stricmp, is_zero}

-- struct server_
pub record Server : Type 0 where
  pub name : Bytes
  pub hub : Option ℕ
  pub child : Option ℕ
  pub sibling : Option ℕ

pub record Servers : Type 0 where
  pub node : ℕ → Option Server
  pub serverlist : List ℕ
  pub servercnt : ℕ
  pub lastserver : Option ℕ
  pub fresh : ℕ

abbrev pub bind {ℓ κ} : {A : Type ℓ} {B : Type κ} → Option A → (A → Option B) → Option B
bind none f = none
bind (some a) f = f a

unfoldable pub put : ℕ → Option Server → Servers → Servers
put a s c = record c { node = λ b. if b == a then s else c.node b }

abbrev pub points_to : Option ℕ → ℕ → Bool
points_to none a = false
points_to (some b) a = b == a

pub remove : ℕ → List ℕ → List ℕ
remove a [] = []
remove a (b ∷ l) = if b == a then l else b ∷ remove a l

-- A new server goes to the front of the list.
pub new_server : Bytes → Servers → Servers
unfolding put
new_server name c =
    record (put c.fresh (some (record { name = name; hub = none; child = none; sibling = none }))
      c) {
        serverlist = c.fresh ∷ c.serverlist;
        servercnt = (c.servercnt + 1) % 65536;
        fresh = c.fresh + 1;
      }

unfoldable pub delete_server : ℕ → Servers → Servers
unfolding put remove
delete_server a c = record (put a none c) {
  serverlist = remove a c.serverlist;
  servercnt = (c.servercnt + 65535) % 65536;
  lastserver = if points_to c.lastserver a then none else c.lastserver;
}

pub search : Bytes → (ℕ → Option Server) → List ℕ → Option (Option ℕ)
search name node [] = some none
search name node (a ∷ l) =
    let rest = search name node l in
    bind (node a) (λ s. if is_zero (stricmp name s.name) then some (some a) else rest)

abbrev pub is_last : Bytes → (ℕ → Option Server) → Option ℕ → Option Bool
is_last name node none = some false
is_last name node (some a) = bind (node a) (λ s. some (is_zero (stricmp name s.name)))

abbrev pub remember : Option ℕ → Servers → Servers
remember none c = c
remember (some a) c = record c { lastserver = some a }

-- The server that was found last, and then the list.
pub findserver : Bytes → Servers → Option (Option ℕ × Servers)
unfolding search
findserver name c = bind (is_last name c.node c.lastserver) (λ b.
    if b
    then some (c.lastserver, c)
    else bind (search name c.node c.serverlist) (λ r. some (r, remember r c)))

abbrev pub modify : ℕ → (Server → Server) → Servers → Option Servers
modify a f c = bind (c.node a) (λ s. some (put a (some (f s)) c))

-- `while (tmpserver->sibling) tmpserver = tmpserver->sibling;`
pub last_sibling : ℕ → ℕ → Servers → Option ℕ
last_sibling zero a c = none
last_sibling (suc n) a c =
    bind (c.node a) (λ s. elim s.sibling [ none ↦ some a | some b ↦ last_sibling n b c ])

-- The new server becomes the last child of its hub.
pub add_child : ℕ → ℕ → ℕ → Servers → Option Servers
unfolding last_sibling put
add_child fuel hub server c = bind (c.node hub) (λ h. elim h.child [
  | none ↦ modify hub (λ s. record s { child = some server }) c
  | some k ↦
      bind (last_sibling fuel k c) (λ t. modify t (λ s. record s { sibling = some server }) c)
])

abbrev pub with_hub : ℕ → ℕ → Option ℕ × Servers → Option Servers
with_hub fuel server (none, c) = some c
with_hub fuel server (some hub, c) =
    bind (modify server (λ s. record s { hub = some hub }) c) (add_child fuel hub server)

-- Without a source the new server is the one that we are linked to. A hub that is not known is
-- reported, and the new server stays without one.
pub do_server : ℕ → Bytes → Bytes → Servers → Option Servers
unfolding new_server findserver put add_child
do_server fuel [] name c = some (new_server name c)
do_server fuel (x ∷ source) name c =
    bind (findserver (x ∷ source) (new_server name c)) (with_hub fuel c.fresh)

-- The loop of recursive_squit, from a child on.
pub squit_from : ℕ → Option ℕ → Servers → Option Servers
unfolding delete_server
squit_from zero o c = none
squit_from (suc n) none c = some c
squit_from (suc n) (some a) c = bind (c.node a) (λ s.
    bind (elim s.child [ none ↦ some c | some k ↦ squit_from n (some k) c ])
      (λ c'. bind (c'.node a) (λ s'. squit_from n s'.sibling (delete_server a c'))))

pub recursive_squit : ℕ → ℕ → Servers → Option Servers
unfolding squit_from
recursive_squit fuel parent c = bind (c.node parent) (λ s. squit_from fuel s.child c)

-- The server in front of `a` in a chain of siblings gets the sibling of `a`.
pub unlink_from : ℕ → ℕ → ℕ → Servers → Option Servers
unfolding put
unlink_from zero a t c = none
unlink_from (suc n) a t c = bind (c.node t) (λ s. elim s.sibling [
  | none ↦ some c
  | some b ↦
      let rest = unlink_from n a b c in
      if b == a
      then bind (c.node a) (λ x. some (put t (some (record s { sibling = x.sibling })) c))
      else rest
])

pub unlink : ℕ → ℕ → ℕ → Servers → Option Servers
unfolding unlink_from put
unlink fuel hub a c = bind (c.node hub) (λ h.
    if points_to h.child a
    then bind (c.node a) (λ x. some (put hub (some (record h { child = x.sibling })) c))
    else bind h.child (λ k. unlink_from fuel a k c))

-- A server without a hub stays.
abbrev pub leave_hub : ℕ → ℕ → Option ℕ → Servers → Option Servers
leave_hub fuel a none c = some c
leave_hub fuel a (some hub) c = bind (unlink fuel hub a c) (λ c'. some (delete_server a c'))

abbrev pub squit_found : ℕ → Option ℕ × Servers → Option Servers
squit_found fuel (none, c) = some c
squit_found fuel (some a, c) =
    bind (recursive_squit fuel a c) (λ c'. bind (c'.node a) (λ s. leave_hub fuel a s.hub c'))

pub do_squit : ℕ → Bytes → Servers → Option Servers
unfolding findserver recursive_squit unlink
do_squit fuel name c = bind (findserver name c) (squit_found fuel)
