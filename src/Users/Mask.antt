-- ===== src/Users/Mask.antt =====
-- src/users.c: match_usermask, split_usermask, create_mask, is_banned and count_mask_matches.
-- strtok, strchr, strrchr and atoi are those of the C library; a dereference of NULL, and a pointer
-- in front of its string, end in `none`.
pub mod Match
pub mod Dots
pub mod Create
pub mod Bounds
mod Examples
use oftc_blitzed.Base.{
  ℕ, zero, ◌+◌, ◌-◌, ◌*◌, Bool, true, false, not, ◌&&◌, ◌||◌, List, [], ◌∷◌, ◌++◌, Option, none,
  some, ◌==◌, if◌then◌else◌, ltb, leb, Bytes, codes, keep_if,
}
use oftc_blitzed.Text.{strlower}
use oftc_blitzed.Wild.{match_wild}
use oftc_blitzed.Channel.Defs.{Ban, Channel}

-- What the masks need of struct user_.
pub record User : Type 0 where
  pub nick : Bytes
  pub username : Bytes
  pub host : Bytes

-- The part of a string in front of a delimiter, and the part behind it.
unfoldable pub word_of : ℕ → Bytes → Bytes
word_of d [] = []
word_of d (c ∷ s) = if c == d then [] else c ∷ word_of d s

unfoldable pub after_word : ℕ → Bytes → Bytes
after_word d [] = []
after_word d (c ∷ s) = if c == d then s else after_word d s

unfoldable pub skip : ℕ → Bytes → Bytes
skip d [] = []
skip d (c ∷ s) = if c == d then skip d s else c ∷ s

-- strtok with a single delimiter, on what the last call left: the token, and what is left.
unfoldable pub strtok : ℕ → Bytes → Option Bytes × Bytes
unfolding word_of after_word skip
strtok d s = elim (skip d s) [
  | [] ↦ (none, [])
  | c ∷ t ↦ (some (word_of d (c ∷ t)), after_word d (c ∷ t))
]

-- strtok(NULL, "")
abbrev pub strtok_rest : Bytes → Option Bytes
strtok_rest [] = none
strtok_rest (c ∷ s) = some (c ∷ s)

unfoldable pub has : ℕ → Bytes → Bool
has d [] = false
has d (c ∷ s) = if c == d then true else has d s

unfoldable pub match_parts : Option Bytes → Option Bytes → Option Bytes → User → Bool
match_parts nick none host u = false
match_parts nick (some username) none u = false
match_parts none (some username) (some host) u =
    match_wild username u.username && match_wild (strlower host) (strlower u.host)
match_parts (some nick) (some username) (some host) u =
    match_wild (strlower nick) (strlower u.nick)
    && (match_wild username u.username && match_wild (strlower host) (strlower u.host))

abbrev pub match_rest : Option Bytes → Option Bytes × Bytes → User → Bool
match_rest nick (username, t) u = match_parts nick username (strtok_rest t) u

-- The nick is lowered before the test for NULL.
abbrev pub match_nick : Option Bytes × Bytes → User → Option Bool
match_nick (none, s) u = none
match_nick (some n, s) u = some (match_rest (some n) (strtok b'@' s) u)

unfoldable pub match_usermask : Bytes → User → Option Bool
unfolding strtok has match_parts
match_usermask mask u =
    if has b'!' mask
    then match_nick (strtok b'!' mask) u
    else some (match_rest none (strtok b'@' mask) u)

-- `for (...) if (match_usermask(...)) i++`, over the users that firstuser and nextuser give.
unfoldable pub count_mask_matches : Bytes → List User → Option ℕ
unfolding match_usermask
count_mask_matches mask [] = some 0
count_mask_matches mask (u ∷ us) =
    let rest = count_mask_matches mask us in
    elim (match_usermask mask u) [
      | none ↦ none
      | some b ↦ elim rest [ none ↦ none | some i ↦ some (if b then i + 1 else i) ]
    ]

pub any_ban : User → List Ban → Option Bool
unfolding match_usermask
any_ban u [] = some false
any_ban u (ban ∷ bans) =
    let rest = any_ban u bans in
    elim (match_usermask ban.mask u) [ none ↦ none | some b ↦ if b then some true else rest ]

pub is_banned : User → Option Channel → Option Bool
unfolding any_ban
is_banned u none = some false
is_banned u (some c) = any_ban u c.bans

abbrev pub is_none {ℓ} : {A : Type ℓ} → Option A → Bool
is_none none = true
is_none (some a) = false

abbrev pub or_star : Option Bytes → Bytes
or_star none = codes "*"
or_star (some s) = s

-- What strtok(mask2, "!") leaves in the buffer, which now ends behind the token.
pub first_part : ℕ → Bytes → Bytes
unfolding word_of
first_part d [] = []
first_part d (c ∷ s) = if c == d then c ∷ first_part d s else word_of d (c ∷ s)

abbrev pub or_stars : Option Bytes → Option Bytes × Bytes → Bytes × Bytes × Bytes
or_stars nick (user, t) = (or_star nick, or_star user, or_star (strtok_rest t))

-- The three tokens, and once more from the start if there is nothing but user@host.
pub split_usermask : Bytes → Bytes × Bytes × Bytes
unfolding strtok has first_part
split_usermask mask =
    let nick = (strtok b'!' mask).0 in
    let user = strtok b'@' (strtok b'!' mask).1 in
    if not (is_none nick) && (is_none user.0 && has b'@' (or_star nick))
    then or_stars none (strtok b'@' (first_part b'!' mask))
    else or_stars nick user

abbrev pub bind {ℓ κ} : {A : Type ℓ} {B : Type κ} → Option A → (A → Option B) → Option B
bind none f = none
bind (some a) f = f a

-- strchr(s, '.') + 1
pub behind_dot : Bytes → Option Bytes
behind_dot [] = none
behind_dot (c ∷ s) = if c == b'.' then some s else behind_dot s

abbrev pub isdigit : ℕ → Bool
isdigit c = leb b'0' c && leb c b'9'

-- strspn(s, "0123456789.") == strlen(s)
pub all_digits : Bytes → Bool
all_digits [] = true
all_digits (c ∷ s) = (isdigit c || c == b'.') && all_digits s

pub is_address : Bytes → Bool
unfolding behind_dot all_digits
is_address host = all_digits host && elim (bind (bind (behind_dot host) behind_dot) behind_dot) [
  | none ↦ false
  | some s ↦ is_none (behind_dot s)
]

-- `*strrchr(s, '.') = 0`
pub cut : Bytes → Option Bytes
cut [] = none
cut (c ∷ s) = elim (cut s) [ none ↦ if c == b'.' then some [] else none | some p ↦ some (c ∷ p) ]

-- The digits that a string begins with. More than an int holds is undefined in C.
pub atoi_from : ℕ → Bytes → ℕ
atoi_from n [] = n
atoi_from n (c ∷ s) = if isdigit c then atoi_from (n * 10 + (c - b'0')) s else n

abbrev pub atoi : Bytes → ℕ
atoi s = atoi_from 0 s

abbrev pub cut_if : Bool → Bytes → Option Bytes
cut_if true s = cut s
cut_if false s = some s

-- The part of the address that stays.
pub subnet : Bytes → Option Bytes
unfolding cut atoi_from
subnet host =
    bind (cut host) (λ s. bind (cut_if (ltb (atoi host) 192) s) (cut_if (ltb (atoi host) 128)))

-- A host with two dots: from one byte in front of the first dot, which becomes a star.
pub wild_host : Bytes → Option Bytes
unfolding behind_dot
wild_host host = elim (behind_dot host) [
  | none ↦ some host
  | some s ↦
      if is_none (behind_dot s)
      then some host
      else elim host [ [] ↦ none | c ∷ _ ↦ if c == b'.' then none else some (b'*' ∷ b'.' ∷ s) ]
]

pub host_mask : Bytes → Option Bytes
unfolding is_address subnet wild_host
host_mask host =
    if is_address host then bind (subnet host) (λ s. some (s ++ codes ".*")) else wild_host host

pub create_mask : User → Option Bytes
unfolding host_mask
create_mask u = bind (host_mask u.host) (λ h. some (u.username ++ b'@' ∷ h))
