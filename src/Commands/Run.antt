-- ===== src/Commands/Run.antt =====
-- Which command is found, when its routine runs, and what help answers.
use oftc_blitzed.Base.{
  ℕ, ◌≡◌, ◌≢◌, refl, ap, subst, true, false, List, [], ◌∷◌, ◌++◌, Option, none, some, Bytes,
  Bool-cases, inl, inr, All,
}
use oftc_blitzed.Text.{stricmp, is_zero}
use oftc_blitzed.Commands.{
  Command, Reply, Rank, lookup_cmd, has_privilege, run_routine, run_cmd, skip_spaces, all_message,
  own_message, rank_message, help_of, help_cmd,
}

abbrev AnyReply : List Reply → Type 0
AnyReply [] = ⊥
AnyReply (x ∷ l) = Unit {0}

own_answers :
    (cmd : Bytes) (all own : Option ℕ) → AnyReply (all_message all ++ own_message cmd all own)
own_answers cmd none none = tt
own_answers cmd none (some m) = tt
own_answers cmd (some n) own = tt

module _ {S : Type 0} where
  -- The first entry of a table that a name stands for.
  pub record IsFirst (l : List (Command S)) (cmd : Bytes) (c : Command S) : Type 0 where
    pub before : List (Command S)
    pub after : List (Command S)
    pub parts : l ≡ before ++ c ∷ after
    pub others : All (λ d. is_zero (stricmp d.name cmd) ≡ false) before
    pub named : is_zero (stricmp c.name cmd) ≡ true

  later :
      (l : List (Command S)) (cmd : Bytes) (c d : Command S)
      → is_zero (stricmp d.name cmd) ≡ false
      → IsFirst l cmd c
      → IsFirst (d ∷ l) cmd c
  later l cmd c d h f = record {
    before = d ∷ f.before;
    after = f.after;
    parts = ap (λ k. d ∷ k) f.parts;
    others = (h, f.others);
    named = f.named;
  }

  pub lookup_cmd-IsFirst :
      (l : List (Command S)) (cmd : Bytes) (c : Command S)
      → lookup_cmd l cmd ≡ some c
      → IsFirst l cmd c
  unfolding lookup_cmd
  lookup_cmd-IsFirst [] cmd c e = absurd (cc)
  lookup_cmd-IsFirst (d ∷ l) cmd c e = elim (Bool-cases (is_zero (stricmp d.name cmd))) [
    | inl h ↦
        let q : d ≡ c = ap (the d) (rw (lookup_cmd, h) at e) in
        record {
          before = [];
          after = l;
          parts = ap (λ x. x ∷ l) q;
          others = tt;
          named = subst (λ x. is_zero (stricmp x.name cmd) ≡ true) q h;
        }
    | inr h ↦ later l cmd c d h (lookup_cmd-IsFirst l cmd c (rw (lookup_cmd, h) at e))
  ]
    where
      the : Command S → Option (Command S) → Command S
      the x none = x
      the x (some y) = y

  -- What has to hold for a routine to have run.
  pub record MayRun (u : ℕ) (l : List (Command S)) (cmd : Bytes) (s s' : S) : Type 0 where
    pub command : Command S
    pub routine : ℕ → S → S
    pub first : IsFirst l cmd command
    pub has_routine : command.routine ≡ some routine
    pub privileged : has_privilege command.has_priv u s ≡ true
    pub result : s' ≡ routine u s

  ran :
      (u : ℕ) (l : List (Command S)) (cmd : Bytes) (s : S) (o : Option (Command S))
      → lookup_cmd l cmd ≡ o
      → (run_routine o cmd u s).0 ≢ s
      → MayRun u l cmd s (run_routine o cmd u s).0
  ran u l cmd s none e n = absurd (n refl)
  ran u l cmd s (some c) e n = by_routine c.routine refl
    where
      by_routine :
          (r : Option (ℕ → S → S))
          → c.routine ≡ r
          → MayRun u l cmd s (run_routine (some c) cmd u s).0
      by_routine none q = absurd (n (rw q refl))
      by_routine (some r) q = elim (Bool-cases (has_privilege c.has_priv u s)) [
        | inl h ↦ record {
          command = c;
          routine = r;
          first = lookup_cmd-IsFirst l cmd c e;
          has_routine = q;
          privileged = h;
          result = rw (q, h) refl;
        }
        | inr h ↦ absurd (n (rw (q, h) refl))
      ]

  -- Whatever run_cmd changes, the routine of a command has changed: of the first command of the table
  -- with that name, without regard to case, for which the user has the privilege, if it asks for one.
  pub run_cmd-MayRun :
      (u : ℕ) (l : List (Command S)) (cmd : Bytes) (s : S)
      → (run_cmd u l cmd s).0 ≢ s
      → MayRun u l cmd s (run_cmd u l cmd s).0
  unfolding run_cmd
  run_cmd-MayRun u l cmd s n = ran u l cmd s (lookup_cmd l cmd) refl n

  -- help_cmd always answers.
  pub help_cmd-AnyReply :
      (r : Rank) (l : List (Command S)) (cmd : Bytes) → AnyReply (help_cmd r l cmd)
  unfolding help_cmd
  help_cmd-AnyReply r l cmd = answers (lookup_cmd l (skip_spaces cmd))
    where
      answers : (o : Option (Command S)) → AnyReply (help_of r cmd o)
      answers none = tt
      answers (some c) = own_answers cmd c.helpmsg_all (rank_message r c)
