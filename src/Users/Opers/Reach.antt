-- ===== src/Users/Opers/Reach.antt =====
-- Users who come, change their modes and go.
use oftc_blitzed.Base.{
  ◌+◌, ◌%◌, ◌≡◌, refl, sym, ap, subst, Bool, true, false, [], some, arith, Bytes, codes, length,
  Bool-cases, inl, inr,
}
use oftc_blitzed.Text.{stricmp, is_zero}
use oftc_blitzed.Text.Fold.{stricmp_refl}
use oftc_blitzed.Users.Opers.{
  umode_o, is_umode, Online, Users, new_user, finduser, do_quit, umode_step, umode_run, start,
  do_umode,
}
use oftc_blitzed.Users.Opers.Count.{
  bit, opers, IsCounted, Toggles, set_modes-opers, new_user-IsCounted, quit-IsCounted,
  umode-IsCounted,
}

-- A user connects, quits, or changes modes; an `o` makes an operator of somebody who is none, or ends
-- it for one.
pub data Step (n n' : Users) : Type 0 where
  connect : (nick : Bytes) → n' ≡ new_user nick n → Step n n'
  quit : (source : Bytes) → n' ≡ do_quit source n → Step n n'
  umode :
      (admin : Bool) (source nick modes : Bytes)
      → ((u : Online) → finduser source n.userlist ≡ some u → Toggles (u.mode umode_o) true modes)
      → n' ≡ (do_umode admin source nick modes n).0
      → Step n n'

pub data Reach (n : Users) : Users → Type 0 where
  here : Reach n n
  next : {m k : Users} → Reach n m → Step m k → Reach n k

Step-IsCounted : (n n' : Users) → Step n n' → IsCounted n → IsCounted n'
unfolding do_umode
Step-IsCounted n n' (connect nick e) v = subst IsCounted (sym e) (new_user-IsCounted nick n v)
Step-IsCounted n n' (quit source e) v =
    subst IsCounted (sym e) (quit-IsCounted source n (finduser source n.userlist) refl v)
Step-IsCounted n n' (umode admin source nick modes g e) v =
    subst IsCounted (sym e) (elim (Bool-cases (is_zero (stricmp source nick))) [
      | inl h ↦ umode-IsCounted admin source nick modes n (finduser source n.userlist) refl g h v
      | inr h ↦ rw (do_umode, h) v
    ])

abbrev pub nobody : Users
nobody = record { userlist = []; usercnt = 0; opcnt = 0 }

-- However users connect, quit and change their modes, from an empty table on, usercnt is the number
-- of users and opcnt the number of operators, as 32-bit numbers, as long as every `o` that the server
-- reports is a change.
pub Reach-IsCounted : (n : Users) → Reach nobody n → IsCounted n
Reach-IsCounted n here = (refl, refl)
Reach-IsCounted n (next {m} r s) = Step-IsCounted m n s (Reach-IsCounted m r)

-- A `-o` for a user who is not an operator takes exactly one from opcnt although as many users and as
-- many operators are there as before, so that a count that was right is wrong afterwards.
pub do_umode-miscounts :
    (admin : Bool) (source : Bytes) (n : Users) (u : Online)
    → finduser source n.userlist ≡ some u
    → u.mode umode_o ≡ false
    → IsCounted n
    → (opers (do_umode admin source source (codes "-o") n).0.userlist ≡ opers n.userlist)
      × (length (do_umode admin source source (codes "-o") n).0.userlist ≡ length n.userlist)
      × ((do_umode admin source source (codes "-o") n).0.opcnt
          ≡ (n.opcnt + 4294967295) % 4294967296)
      × ¬ IsCounted (do_umode admin source source (codes "-o") n).0
unfolding do_umode umode_run umode_step is_umode
do_umode-miscounts admin source n u e o (v, w) =
    let after =
      set_modes-opers source (umode_run admin (codes "-o") (start n u)).mode u n.userlist e in
    rw (do_umode, stricmp_refl source, e)
      (
        omega (arith, after.0, ap bit o),
        after.1,
        refl,
        λ k. omega (arith, k.1, w, after.0, ap bit o),
      )
