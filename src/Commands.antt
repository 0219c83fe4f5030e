-- ===== src/Commands.antt =====
-- src/commands.c: the tables of commands. The tests for privileges and the routines are functions
-- on a state of the services; notices are output.
pub mod Run
mod Examples
use oftc_blitzed.Base.{
  ℕ, Bool, true, false, not, ◌&&◌, List, [], ◌∷◌, ◌++◌, Option, none, some, ◌==◌, if◌then◌else◌,
  Bytes,
}
use oftc_blitzed.Text.{stricmp, is_zero}

-- Command of include/commands.h; a message of -1 is `none`.
pub record Command (S : Type 0) : Type 0 where
  pub name : Bytes
  pub routine : Option (ℕ → S → S)
  pub has_priv : Option (ℕ → S → Bool)
  pub helpmsg_all : Option ℕ
  pub helpmsg_reg : Option ℕ
  pub helpmsg_oper : Option ℕ
  pub helpmsg_admin : Option ℕ
  pub helpmsg_root : Option ℕ

-- What the user is told: a numbered message of the language file.
pub data Reply : Type 0 where
  access_denied : Reply
  unknown_command_help : Bytes → Reply
  no_help_available : Bytes → Reply
  help : ℕ → Reply

module _ {S : Type 0} where
  -- The table ends at a NULL name.
  unfoldable pub lookup_cmd : List (Command S) → Bytes → Option (Command S)
  lookup_cmd [] cmd = none
  lookup_cmd (c ∷ l) cmd = if is_zero (stricmp c.name cmd) then some c else lookup_cmd l cmd

  abbrev pub has_privilege : Option (ℕ → S → Bool) → ℕ → S → Bool
  has_privilege none u s = true
  has_privilege (some p) u s = p u s

  abbrev pub run_routine : Option (Command S) → Bytes → ℕ → S → S × List Reply
  run_routine none cmd u s = (s, unknown_command_help cmd ∷ [])
  run_routine (some c) cmd u s = elim c.routine [
    | none ↦ (s, unknown_command_help cmd ∷ [])
    | some routine ↦
        if has_privilege c.has_priv u s then (routine u s, []) else (s, access_denied ∷ [])
  ]

  pub run_cmd : ℕ → List (Command S) → Bytes → S → S × List Reply
  unfolding lookup_cmd
  run_cmd u l cmd s = run_routine (lookup_cmd l cmd) cmd u s

-- strspn(cmd, " ")
pub skip_spaces : Bytes → Bytes
skip_spaces [] = []
skip_spaces (c ∷ s) = if c == b' ' then skip_spaces s else c ∷ s

-- is_services_root, is_services_admin and is_services_oper of a user.
pub record Rank : Type 0 where
  pub root : Bool
  pub admin : Bool
  pub oper : Bool

abbrev pub rank_message : {S : Type 0} → Rank → Command S → Option ℕ
rank_message r c =
    if r.root
    then c.helpmsg_root
    else if r.admin
    then c.helpmsg_admin
    else if r.oper
    then c.helpmsg_oper
    else c.helpmsg_reg

abbrev pub all_message : Option ℕ → List Reply
all_message none = []
all_message (some n) = help n ∷ []

abbrev pub own_message : Bytes → Option ℕ → Option ℕ → List Reply
own_message cmd all (some n) = help n ∷ []
own_message cmd none none = no_help_available cmd ∷ []
own_message cmd (some m) none = []

abbrev pub help_of : {S : Type 0} → Rank → Bytes → Option (Command S) → List Reply
help_of r cmd none = no_help_available cmd ∷ []
help_of r cmd (some c) =
    all_message c.helpmsg_all ++ own_message cmd c.helpmsg_all (rank_message r c)

pub help_cmd : {S : Type 0} → Rank → List (Command S) → Bytes → List Reply
unfolding lookup_cmd skip_spaces
help_cmd r l cmd = help_of r cmd (lookup_cmd l (skip_spaces cmd))
