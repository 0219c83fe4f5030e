-- ===== src/Servers/Find.antt =====
-- findserver with its memory of the server that it found last, and the list alone.
use oftc_blitzed.Base.{
  ℕ, ◌≡◌, refl, sym, ap, subst, ◌∙◌, true, false, List, [], ◌∷◌, Option, none, some, arith, ◌==◌,
  if◌then◌else◌, mem, Bool-cases, Option-cases, inl, inr, Bytes,
}
use oftc_blitzed.Text.{stricmp, is_zero}
use oftc_blitzed.Servers.{
  Server, Servers, put, remove, points_to, delete_server, search, is_last, remember, findserver,
}
use oftc_blitzed.Servers.Forest.{Distinct, mem-other}

-- Who is asked for by a name.
abbrev pub Answers : (ℕ → Option Server) → Bytes → ℕ → Type 0
Answers node name a = (s : Server) × (node a ≡ some s) × (is_zero (stricmp name s.name) ≡ true)

-- Each server of the list is there, no two answer to the same name, and the one remembered is one of
-- them.
pub record IsTable (c : Servers) : Type 0 where
  pub alive : (a : ℕ) → mem a c.serverlist ≡ true → (s : Server) × (c.node a ≡ some s)
  pub unique :
      (name : Bytes) (a b : ℕ)
      → mem a c.serverlist ≡ true
      → mem b c.serverlist ≡ true
      → Answers c.node name a
      → Answers c.node name b
      → a ≡ b
  pub last : (a : ℕ) → c.lastserver ≡ some a → mem a c.serverlist ≡ true
  pub distinct : Distinct c.serverlist

the : Server → Option Server → Server
the d none = d
the d (some s) = s

-- A server that answers is behind one that does not.
behind :
    (node : ℕ → Option Server) (name : Bytes) (x a : ℕ) (l : List ℕ) (s : Server)
    → node x ≡ some s
    → is_zero (stricmp name s.name) ≡ false
    → Answers node name a
    → mem a (x ∷ l) ≡ true
    → mem a l ≡ true
unfolding the
behind node name x a l s e h (t, f, g) m = elim (Bool-cases (x == a)) [
  | inl q ↦
      let r : x ≡ a = ground (arith, q) in
      let p : s ≡ t = ap (the s) (sym e ∙ ap node r ∙ f) in
      absurd (cc (ap (λ y. is_zero (stricmp name y.name)) p))
  | inr q ↦ rw q at m
]

search-some :
    (name : Bytes) (node : ℕ → Option Server) (a : ℕ) (l : List ℕ)
    → ((b : ℕ) → mem b l ≡ true → (s : Server) × (node b ≡ some s))
    → ((b : ℕ) → mem b l ≡ true → Answers node name b → b ≡ a)
    → mem a l ≡ true
    → Answers node name a
    → search name node l ≡ some (some a)
unfolding search
search-some name node a [] f u m w = absurd (cc)
search-some name node a (x ∷ l) f u m w =
    let (s, e) = f x (ground arith) in
    elim (Bool-cases (is_zero (stricmp name s.name))) [
      | inl h ↦ rw (search, e, h) (ap (λ y. some (some y)) (u x (ground arith) (s, e, h)))
      | inr h ↦
          rw (search, e, h)
            (search-some name node a l (λ b n. f b (ground (arith, n)))
              (λ b n. u b (ground (arith, n))) (behind node name x a l s e h w m) w)
    ]

search-total :
    (name : Bytes) (node : ℕ → Option Server) (l : List ℕ)
    → ((b : ℕ) → mem b l ≡ true → (s : Server) × (node b ≡ some s))
    → (r : Option ℕ) × (search name node l ≡ some r)
unfolding search
search-total name node [] f = (none, refl)
search-total name node (x ∷ l) f =
    let (s, e) = f x (ground arith) in
    let (r, q) = search-total name node l (λ b n. f b (ground (arith, n))) in
    elim (Bool-cases (is_zero (stricmp name s.name))) [
      | inl h ↦ (some x, rw (search, e, h) refl)
      | inr h ↦ (r, rw (search, e, h) q)
    ]

module _ (name : Bytes) (c : Servers) (v : IsTable c) where
  by_list :
      is_last name c.node c.lastserver ≡ some false
      → (r : Option ℕ) × (c' : Servers) × (findserver name c ≡ some (r, c'))
        × (search name c.node c.serverlist ≡ some r)
        × (c'.node ≡ c.node)
  unfolding findserver
  by_list e =
      let (r, q) = search-total name c.node c.serverlist v.alive in
      (r, remember r c, rw (findserver, e, q) refl, q, same_node r)
    where
      same_node : (r : Option ℕ) → (remember r c).node ≡ c.node
      same_node none = refl
      same_node (some a) = refl

  -- In a table in order, findserver answers what the list answers, whatever it remembers, and changes no server.
  pub findserver-search :
      (r : Option ℕ) × (c' : Servers) × (findserver name c ≡ some (r, c'))
      × (search name c.node c.serverlist ≡ some r)
      × (c'.node ≡ c.node)
  unfolding findserver
  findserver-search = elim (Option-cases c.lastserver) [
    | inl e ↦ by_list (rw e refl)
    | inr (a, e) ↦
        let (s, q) = v.alive a (v.last a e) in
        elim (Bool-cases (is_zero (stricmp name s.name))) [
          | inl h ↦ (
            some a,
            c,
            rw (findserver, e, q, h) refl,
            search-some name c.node a c.serverlist v.alive
                (λ b n w. v.unique name b a n (v.last a e) w (s, q, h)) (v.last a e) (s, q, h),
            refl,
          )
          | inr h ↦ by_list (rw (e, q, h) refl)
        ]
  ]

remove-mem : (a b : ℕ) (l : List ℕ) → mem b (remove a l) ≡ true → mem b l ≡ true
unfolding remove
remove-mem a b [] m = m
remove-mem a b (x ∷ l) m = ground (arith, m, remove-mem a b l)

remove-Distinct : (a : ℕ) (l : List ℕ) → Distinct l → Distinct (remove a l)
unfolding remove
remove-Distinct a [] d = tt
remove-Distinct a (x ∷ l) (n, d) = elim (Bool-cases (x == a)) [
  | inl e ↦ rw e d
  | inr e ↦ rw e (elim (Bool-cases (mem x (remove a l))) [
    | inl m ↦ absurd (cc (remove-mem a x l m))
    | inr m ↦ (m, remove-Distinct a l d)
  ])
]

mem-remove : (a b : ℕ) (l : List ℕ) → (b == a) ≡ false → mem b l ≡ true → mem b (remove a l) ≡ true
unfolding remove
mem-remove a b [] n m = m
mem-remove a b (x ∷ l) n m = ground (arith, n, m, mem-remove a b l n)

remove-not_mem : (a : ℕ) (l : List ℕ) → Distinct l → mem a (remove a l) ≡ false
unfolding remove
remove-not_mem a [] d = refl
remove-not_mem a (x ∷ l) (n, d) = elim (Bool-cases (x == a)) [
  | inl e ↦ rw e (let q : x ≡ a = ground (arith, e) in subst (λ y. mem y l ≡ false) q n)
  | inr e ↦ rw (e, e) (remove-not_mem a l d)
]

still_last :
    (o : Option ℕ) (a b : ℕ)
    → (if points_to o a then none else o) ≡ some b
    → (o ≡ some b) × ((b == a) ≡ false)
still_last none a b e = absurd (cc)
still_last (some x) a b e = elim (Bool-cases (x == a)) [
  | inl h ↦ absurd (cc (rw h at e))
  | inr h ↦ (rw h at e, subst (λ o. points_to o a ≡ false) (rw h at e) h)
]

-- Deleting a server of the table leaves a table: nothing that it holds or remembers has been freed.
pub delete_server-IsTable : (a : ℕ) (c : Servers) → IsTable c → IsTable (delete_server a c)
unfolding delete_server put
delete_server-IsTable a c v = record {
  alive = λ b m. let (s, e) = v.alive b (remove-mem a b c.serverlist m) in (s, rw (differs b m) e);
  unique = λ name x y m n p q.
      v.unique name x y (remove-mem a x c.serverlist m) (remove-mem a y c.serverlist n)
        (subst (λ o. (s : Server) × (o ≡ some s) × (is_zero (stricmp name s.name) ≡ true))
          (rw (differs x m) refl) p)
        (subst (λ o. (s : Server) × (o ≡ some s) × (is_zero (stricmp name s.name) ≡ true))
          (rw (differs y n) refl) q);
  last = λ b e.
      let (p, q) = still_last c.lastserver a b e in mem-remove a b c.serverlist q (v.last b p);
  distinct = remove-Distinct a c.serverlist v.distinct;
}
  where
    differs : (b : ℕ) → mem b (remove a c.serverlist) ≡ true → (b == a) ≡ false
    differs b m = mem-other a b (remove a c.serverlist) (remove-not_mem a c.serverlist v.distinct) m
