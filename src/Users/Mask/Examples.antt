-- ===== src/Users/Mask/Examples.antt =====
-- Masks of concrete users.
use oftc_blitzed.Base.{
  ℕ, ◌+◌, ◌≡◌, ◌≢◌, refl, true, false, ◌||◌, ◌==◌, [], ◌∷◌, ◌++◌, none, some, arith, codes, Bytes,
  length,
}
use oftc_blitzed.Users.Mask.{
  User, create_mask, match_usermask, host_mask, is_address, subnet, cut, behind_dot, all_digits,
  atoi_from, wild_host, strtok, skip, word_of, after_word, has, match_parts,
}
use oftc_blitzed.Users.Mask.Create.{match_usermask-create_mask}
use oftc_blitzed.Users.Mask.Bounds.{create_mask-overflow}

abbrev amy : User
amy = record { nick = codes "Amy"; username = codes "a"; host = codes "a.B.c" }

abbrev ann : User
ann = record { nick = codes "ann"; username = codes "~a"; host = codes "10.1.2.3" }

name_mask : create_mask amy ≡ some (codes "a@*.B.c")
unfolding create_mask host_mask is_address subnet cut behind_dot all_digits atoi_from wild_host
name_mask = refl

address_mask : create_mask ann ≡ some (codes "~a@10.*")
unfolding create_mask host_mask is_address subnet cut behind_dot all_digits atoi_from wild_host
address_mask = refl

leading_dot : create_mask (record amy { host = codes ".b.c" }) ≡ none
unfolding create_mask host_mask is_address subnet cut behind_dot all_digits atoi_from wild_host
leading_dot = refl

only_bang : match_usermask (codes "!") amy ≡ none
unfolding match_usermask strtok skip word_of after_word has match_parts
only_bang = refl

plain :
    (c : ℕ) → (c == b'*' || (c == b'?' || c == b'!')) ≡ false → (c ≢ b'*') × (c ≢ b'?') × (c ≢ b'!')
plain c h = ((λ e. ground (arith, e, h)), (λ e. ground (arith, e, h)), (λ e. ground (arith, e, h)))

match_usermask-create_mask_example :
    (m : Bytes) × (create_mask amy ≡ some m) × (match_usermask m amy ≡ some true)
match_usermask-create_mask_example =
    match_usermask-create_mask amy ((λ e. omega (arith, e)), tt)
      (((λ e. omega (arith, e)), (λ e. omega (arith, e)), (λ e. omega (arith, e))), tt)
      (λ e. omega (arith, e))
      (
        plain b'a' refl,
        (plain b'.' refl, (plain b'B' refl, (plain b'.' refl, (plain b'c' refl, tt)))),
      )

abbrev last : Bytes → ℕ
last [] = 0
last (c ∷ []) = c
last (c ∷ d ∷ s) = last (d ∷ s)

last_dot : (q : Bytes) → last (q ++ codes ".") ≡ b'.'
last_dot [] = refl
last_dot (c ∷ []) = refl
last_dot (c ∷ d ∷ q) = last_dot (d ∷ q)

create_mask-overflow_example :
    (m : Bytes) × (create_mask
        (record { nick = codes "al"; username = codes "a"; host = codes "200.2.3" ++ codes "." })
      ≡ some m)
    × (length m ≡ length (codes "a") + length (codes "200.2.3" ++ codes ".") + 2)
unfolding is_address behind_dot all_digits atoi_from
create_mask-overflow_example =
    create_mask-overflow (codes "a") (codes "200.2.3") (codes "al") refl (omega arith)
