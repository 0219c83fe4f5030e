-- ===== src/Users/Opers/Count.antt =====
-- opcnt, and the operators among the users.
use oftc_blitzed.Base.{
  ℕ, ◌+◌, ◌%◌, ◌≡◌, refl, sym, ap, subst, Bool, true, false, not, List, [], ◌∷◌, Option, none, some,
  arith, ◌==◌, if◌then◌else◌, ◌&&◌, length, Bytes, Bool-cases, inl, inr,
}
use oftc_blitzed.Text.{stricmp, irc_stricmp, is_zero}
use oftc_blitzed.Users.Opers.{
  umode_o, is_umode, Modes, Online, Users, Turn, new_user, finduser, unlink_user, set_modes,
  delete_user, do_quit, umode_step, umode_run, start, finish, do_umode,
}

abbrev pub bit : Bool → ℕ
bit true = 1
bit false = 0

abbrev pub opers : List Online → ℕ
opers [] = 0
opers (u ∷ l) = bit (u.mode umode_o) + opers l

-- usercnt is the number of users, and opcnt the number of operators, as an int32.
abbrev pub IsCounted : Users → Type 0
IsCounted n =
    (n.usercnt ≡ length n.userlist % 4294967296) × (n.opcnt ≡ opers n.userlist % 4294967296)

-- Each `o` of a change of modes makes an operator of somebody who is none, or ends it for one.
abbrev pub Toggles : Bool → Bool → Bytes → Type 0
Toggles oper add [] = Unit
Toggles oper add (c ∷ s) =
    if c == b'+'
    then Toggles oper true s
    else if c == b'-'
    then Toggles oper false s
    else if c == b'o'
    then (oper ≡ not add) × Toggles add add s
    else Toggles oper add s

-- What is counted besides the user whose modes change.
abbrev IsTurn : ℕ → Turn → Type 0
IsTurn base t = t.opcnt ≡ (base + bit (t.mode umode_o)) % 4294967296

-- What a turn of the loop does to what is still to come, and to the count.
abbrev Keeps : Bool → ℕ → Bytes → Turn → ℕ → Type 0
Keeps admin base s t c =
    Toggles (t.mode umode_o) t.add (c ∷ s)
    → IsTurn base t
    → Toggles ((umode_step admin c t).mode umode_o) (umode_step admin c t).add s
      × IsTurn base (umode_step admin c t)

at_byte : (P : ℕ → Type 0) (c d : ℕ) → P d → (c == d) ≡ true → P c
at_byte P c d p h = let q : c ≡ d = ground (arith, h) in subst P (sym q) p

counted :
    (n base : ℕ) (add oper : Bool)
    → oper ≡ not add
    → n ≡ (base + bit oper) % 4294967296
    → (if add then (n + 1) % 4294967296 else (n + 4294967295) % 4294967296)
      ≡ (base + bit add) % 4294967296
counted n base true true e h = absurd (cc)
counted n base true false e h = omega (arith, h)
counted n base false true e h = omega (arith, h)
counted n base false false e h = absurd (cc)

admin-Keeps : (admin : Bool) (base : ℕ) (s : Bytes) (t : Turn) → Keeps admin base s t b'a'
unfolding umode_step
admin-Keeps admin base s t g v = elim (Bool-cases (t.mode umode_o && admin)) [
  | inl h ↦ elim (Bool-cases t.add) [
    | inl e ↦ rw (h, e) (rw e at g, v)
    | inr e ↦ rw (h, e) (rw e at g, v)
  ]
  | inr h ↦ elim (Bool-cases t.add) [
    | inl e ↦ rw (h, e) (rw e at g, v)
    | inr e ↦ rw (h, e) (rw e at g, v)
  ]
]

letter-Keeps : (admin : Bool) (base : ℕ) (s : Bytes) (t : Turn) (c : ℕ) → Keeps admin base s t c
unfolding umode_step is_umode
letter-Keeps admin base s t c = elim (Bool-cases (c == b'+')) [
  | inl h ↦ at_byte (Keeps admin base s t) c b'+' (λ g v. (g, v)) h
  | inr e1 ↦ elim (Bool-cases (c == b'-')) [
    | inl h ↦ at_byte (Keeps admin base s t) c b'-' (λ g v. (g, v)) h
    | inr e2 ↦ elim (Bool-cases (c == b'R')) [
      | inl h ↦ at_byte (Keeps admin base s t) c b'R' (λ g v. (g, v)) h
      | inr e3 ↦ elim (Bool-cases (c == b'a')) [
        | inl h ↦ at_byte (Keeps admin base s t) c b'a' (admin-Keeps admin base s t) h
        | inr e4 ↦ elim (Bool-cases (c == b'i')) [
          | inl h ↦ at_byte (Keeps admin base s t) c b'i' (λ g v. (g, v)) h
          | inr e5 ↦ elim (Bool-cases (c == b'w')) [
            | inl h ↦ at_byte (Keeps admin base s t) c b'w' (λ g v. (g, v)) h
            | inr e6 ↦ elim (Bool-cases (c == b'g')) [
              | inl h ↦ at_byte (Keeps admin base s t) c b'g' (λ g v. (g, v)) h
              | inr e7 ↦ elim (Bool-cases (c == b's')) [
                | inl h ↦ at_byte (Keeps admin base s t) c b's' (λ g v. (g, v)) h
                | inr e8 ↦ elim (Bool-cases (c == b'o')) [
                  | inl h ↦
                      at_byte (Keeps admin base s t) c b'o'
                        (λ g v. (g.1, counted t.opcnt base t.add (t.mode umode_o) g.0 v)) h
                  | inr e9 ↦ λ g v.
                      rw (umode_step, e1, e2, e3, e4, e5, e6, e7, e8, e9) (rw (e1, e2, e9) at g, v)
                ]
              ]
            ]
          ]
        ]
      ]
    ]
  ]
]

umode_run-IsTurn :
    (admin : Bool) (base : ℕ) (s : Bytes) (t : Turn)
    → Toggles (t.mode umode_o) t.add s
    → IsTurn base t
    → IsTurn base (umode_run admin s t)
unfolding umode_run
umode_run-IsTurn admin base [] t g v = v
umode_run-IsTurn admin base (c ∷ s) t g v =
    let (g', v') = letter-Keeps admin base s t c g v in
    umode_run-IsTurn admin base s (umode_step admin c t) g' v'

the : Online → Option Online → Online
the u none = u
the u (some v) = v

pub set_modes-opers :
    (nick : Bytes) (m : Modes) (u : Online) (l : List Online)
    → finduser nick l ≡ some u
    → (opers (set_modes nick m l) + bit (u.mode umode_o) ≡ opers l + bit (m umode_o))
      × (length (set_modes nick m l) ≡ length l)
unfolding finduser set_modes the
set_modes-opers nick m u [] e = absurd (cc)
set_modes-opers nick m u (v ∷ l) e = elim (Bool-cases (is_zero (irc_stricmp v.nick nick))) [
  | inl h ↦
      let q : v ≡ u = ap (the u) (rw (finduser, h) at e) in
      rw h (omega (arith, ap (λ x. bit (x.mode umode_o)) q), refl)
  | inr h ↦
      let r = set_modes-opers nick m u l (rw (finduser, h) at e) in
      rw h (omega (arith, r.0), omega (arith, r.1))
]

unlink_user-opers :
    (nick : Bytes) (u : Online) (l : List Online)
    → finduser nick l ≡ some u
    → (opers (unlink_user nick l) + bit (u.mode umode_o) ≡ opers l)
      × (length (unlink_user nick l) + 1 ≡ length l)
unfolding finduser unlink_user the
unlink_user-opers nick u [] e = absurd (cc)
unlink_user-opers nick u (v ∷ l) e = elim (Bool-cases (is_zero (irc_stricmp v.nick nick))) [
  | inl h ↦
      let q : v ≡ u = ap (the u) (rw (finduser, h) at e) in
      rw h (omega (arith, ap (λ x. bit (x.mode umode_o)) q), omega arith)
  | inr h ↦
      let r = unlink_user-opers nick u l (rw (finduser, h) at e) in
      rw h (omega (arith, r.0), omega (arith, r.1))
]

pub new_user-IsCounted : (nick : Bytes) (n : Users) → IsCounted n → IsCounted (new_user nick n)
unfolding new_user
new_user-IsCounted nick n (v, w) = (omega (arith, v), omega (arith, w))

minus-oper :
    (b : Bool) (n k l : ℕ)
    → n ≡ l % 4294967296
    → k + bit b ≡ l
    → (if b then (n + 4294967295) % 4294967296 else n) ≡ k % 4294967296
minus-oper true n k l e h = omega (arith, e, h)
minus-oper false n k l e h = omega (arith, e, h)

pub quit-IsCounted :
    (source : Bytes) (n : Users) (o : Option Online)
    → finduser source n.userlist ≡ o
    → IsCounted n
    → IsCounted (do_quit source n)
unfolding do_quit delete_user
quit-IsCounted source n none e v = rw (do_quit, e) v
quit-IsCounted source n (some u) e (v, w) =
    let r = unlink_user-opers source u n.userlist e in
    rw (do_quit, e)
      (
        omega (arith, v, r.1),
        minus-oper (u.mode umode_o) n.opcnt (opers (unlink_user source n.userlist))
            (opers n.userlist) w r.0,
      )

run-IsCounted :
    (admin : Bool) (source modes : Bytes) (n : Users) (u : Online)
    → finduser source n.userlist ≡ some u
    → Toggles (u.mode umode_o) true modes
    → IsCounted n
    → IsCounted (finish source (umode_run admin modes (start n u)) n).0
run-IsCounted admin source modes n u e g (v, w) =
    let t = umode_run admin modes (start n u) in
    let without = set_modes-opers source (λ m. false) u n.userlist e in
    let after = set_modes-opers source t.mode u n.userlist e in
    let turn =
      umode_run-IsTurn admin (opers (set_modes source (λ m. false) n.userlist)) modes (start n u) g
        (omega (arith, w, without.0)) in
    (omega (arith, v, after.1), omega (arith, turn, without.0, after.0))

pub umode-IsCounted :
    (admin : Bool) (source nick modes : Bytes) (n : Users) (o : Option Online)
    → finduser source n.userlist ≡ o
    → ((u : Online) → o ≡ some u → Toggles (u.mode umode_o) true modes)
    → is_zero (stricmp source nick) ≡ true
    → IsCounted n
    → IsCounted (do_umode admin source nick modes n).0
unfolding do_umode
umode-IsCounted admin source nick modes n none e g h v = rw (do_umode, h, e) v
umode-IsCounted admin source nick modes n (some u) e g h v =
    rw (do_umode, h, e) (run-IsCounted admin source modes n u e (g u refl) v)
