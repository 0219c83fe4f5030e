-- ===== src/MemoServ/Limit.antt =====
-- SET LIMIT of src/memoserv.c. The words of the line come taken apart, without the channel in front;
-- `atoi` is the one of the C library, `none` where it gets negative by overflow.
use oftc_blitzed.Base.{
  ℕ, ◌≡◌, ◌≢◌, refl, sym, ap, subst, Bool, true, false, not, ◌&&◌, ◌||◌, List, [], ◌∷◌, Option,
  none, some, arith, ◌==◌, if◌then◌else◌, ltb, Bytes, codes, Bool-cases, inl, inr,
}
use oftc_blitzed.Text.{stricmp, is_zero}
use oftc_blitzed.MemoServ.{
  MemoInfo, User, Env, Found, found, verboten, unknown, get_memoinfo_from_owner, info_of, found_row,
  isdigit,
}

pub record Settings : Type 0 where
  pub atoi : Bytes → Option ℕ
  pub max_memos : ℕ
  pub may_set : ℕ → Bool

-- The limits, and the flags NI_MEMO_HARDMAX and CI_MEMO_HARDMAX.
pub record Limits : Type 0 where
  pub infos : List MemoInfo
  pub hard_nick : ℕ → Bool
  pub hard_chan : ℕ → Bool

pub data Outcome : Type 0 where
  not_registered forbidden denied syntax hard too_high limit_set : Outcome

abbrev pub memoinfo_id : Found → ℕ
memoinfo_id (found i) = i.memoinfo_id
memoinfo_id verboten = 0
memoinfo_id unknown = 0

-- "UPDATE memoinfo SET max=%d WHERE memoinfo_id=%u"
unfoldable pub set_memo_limit : ℕ → Option ℕ → List MemoInfo → List MemoInfo
set_memo_limit id max [] = []
set_memo_limit id max (i ∷ l) =
    (if i.memoinfo_id == id then record i { max = max } else i) ∷ set_memo_limit id max l

abbrev pub is_word : Bytes → Option Bytes → Bool
is_word w none = false
is_word w (some s) = is_zero (stricmp s w)

abbrev pub given : Option Bytes → Bool
given none = false
given (some s) = true

abbrev pub put : Bool → ℕ → (ℕ → Bool) → ℕ → Bool
put b id f i = if i == id then b else f i

-- At most 32767; NONE is no limit.
abbrev pub admin_limit : Settings → Bytes → Option ℕ
admin_limit cfg p1 =
    if is_zero (stricmp p1 (codes "NONE")) then none else some (capped (cfg.atoi p1))
  where
    capped : Option ℕ → ℕ
    capped none = 32767
    capped (some n) = if ltb 32767 n then 32767 else n

-- A Services admin, with the nick that the limit is for and its ID.
unfoldable pub admin_set :
    Env → Settings → Option Bytes → Bytes → ℕ → Bytes → Option Bytes → Limits → Limits × Outcome
unfolding set_memo_limit get_memoinfo_from_owner
admin_set env cfg chan user ni p1 p2 st =
    if not (isdigit p1) && not (is_zero (stricmp p1 (codes "NONE")))
      || given p2 && not (is_word (codes "HARD") p2)
    then (st, syntax)
    else (let infos =
          set_memo_limit (memoinfo_id (get_memoinfo_from_owner env user st.infos))
            (admin_limit cfg p1) st.infos in
        elim chan [
          | some c ↦ (
            record st { infos = infos; hard_chan = put (given p2) (env.findchan c) st.hard_chan },
            limit_set,
          )
          | none ↦
              (record st { infos = infos; hard_nick = put (given p2) ni st.hard_nick }, limit_set)
        ])

abbrev pub admin_words :
    Env → Settings → User → Option Bytes → Option Bytes → Option Bytes → Limits → Limits × Outcome
admin_words env cfg u chan none p2 st = (st, syntax)
admin_words env cfg u chan (some p1) p2 st = admin_set env cfg chan u.nick 0 p1 p2 st

abbrev pub is_none : Option Bytes → Bool
is_none none = true
is_none (some s) = false

-- SET LIMIT nick limit, for another nick.
abbrev pub admin_other : Env → Settings → Bytes → Bytes → Option Bytes → Limits → Limits × Outcome
admin_other env cfg user p1 p2 st =
    if env.findnick user == 0 || is_none (env.nick_of (env.getlink (env.findnick user)))
    then (st, not_registered)
    else admin_set env cfg none user (env.getlink (env.findnick user)) p1 p2 st

abbrev pub set_by_admin :
    Env
    → Settings
    → User
    → Option Bytes
    → Option Bytes
    → Option Bytes
    → Option Bytes
    → Limits
    → Limits × Outcome
set_by_admin env cfg u none (some p1) (some p2) p3 st =
    if is_zero (stricmp p2 (codes "HARD"))
    then admin_words env cfg u none (some p1) (some p2) st
    else admin_other env cfg p1 p2 p3 st
set_by_admin env cfg u none p1 none p3 st = admin_words env cfg u none p1 none st
set_by_admin env cfg u none none (some p2) p3 st = (st, syntax)
set_by_admin env cfg u (some c) p1 p2 p3 st = admin_words env cfg u (some c) p1 p2 st

abbrev pub user_limit : Settings → ℕ → Limits → Option ℕ → Limits × Outcome
user_limit cfg id st none = (st, too_high)
user_limit cfg id st (some n) =
    if ltb 0 cfg.max_memos && ltb cfg.max_memos n then (st, too_high) else (
      record st { infos = set_memo_limit id (some (if ltb 32767 n then 32767 else n)) st.infos },
      limit_set,
    )

-- A nick without a row, whose name the program leaves unset, is the empty name here.
abbrev pub owner_of : Env → User → Option Bytes → Bytes
owner_of env u (some c) = c
owner_of env u none = elim (env.nick_of u.real_id) [ some n ↦ n | none ↦ [] ]

abbrev pub is_hard : Env → User → Option Bytes → Limits → Bool
is_hard env u (some c) st = st.hard_chan (env.findchan c)
is_hard env u none st = st.hard_nick u.real_id

abbrev pub set_by_user :
    Env → Settings → User → Option Bytes → Option Bytes → Option Bytes → Limits → Limits × Outcome
set_by_user env cfg u chan none p2 st = (st, syntax)
set_by_user env cfg u chan (some p1) p2 st =
    if given p2 || not (isdigit p1)
    then (st, syntax)
    else if is_hard env u chan st
    then (st, hard)
    else user_limit cfg (memoinfo_id (get_memoinfo_from_owner env (owner_of env u chan) st.infos))
        st (cfg.atoi p1)

abbrev pub set_words :
    Env
    → Settings
    → User
    → Option Bytes
    → Option Bytes
    → Option Bytes
    → Option Bytes
    → Limits
    → Limits × Outcome
set_words env cfg u chan p1 p2 p3 st =
    if u.services_admin
    then set_by_admin env cfg u chan p1 p2 p3 st
    else set_by_user env cfg u chan p1 p2 st

unfoldable pub do_set_limit :
    Env
    → Settings
    → User
    → Option Bytes
    → Option Bytes
    → Option Bytes
    → Option Bytes
    → Limits
    → Limits × Outcome
unfolding admin_set set_memo_limit get_memoinfo_from_owner
do_set_limit env cfg u none p1 p2 p3 st = set_words env cfg u none p1 p2 p3 st
do_set_limit env cfg u (some c) p1 p2 p3 st =
    if env.findchan c == 0
    then (st, not_registered)
    else if env.chan_verboten (env.findchan c)
    then (st, forbidden)
    else if not u.services_admin && not (cfg.may_set (env.findchan c))
    then (st, denied)
    else set_words env cfg u (some c) p1 p2 p3 st

info_of-set_memo_limit :
    (c : Bytes) (id : ℕ) (max : Option ℕ) (i : MemoInfo) (l : List MemoInfo)
    → info_of c l ≡ some i
    → i.memoinfo_id ≢ id
    → info_of c (set_memo_limit id max l) ≡ some i
unfolding set_memo_limit
info_of-set_memo_limit c id max i [] e o = absurd (cc)
info_of-set_memo_limit c id max i (j ∷ l) e o = elim (Bool-cases (is_zero (stricmp j.owner c))) [
  | inl h ↦
      let q : some j ≡ some i = rw h at e in
      let same : j.memoinfo_id ≡ i.memoinfo_id = ap (λ x. memoinfo_id (found_row x)) q in
      let other : j.memoinfo_id == id ≡ false = ground (arith, same, o) in
      rw (set_memo_limit, other, h) q
  | inr h ↦
      let rest = info_of-set_memo_limit c id max i l (rw h at e) o in
      elim (Bool-cases (j.memoinfo_id == id)) [
        | inl k ↦ rw (set_memo_limit, k, h) rest
        | inr k ↦ rw (set_memo_limit, k, h) rest
      ]
]

-- A Services admin sets the limit of a channel that is registered and not forbidden. The limit of his
-- own nick is set, and that of the channel stays.
pub do_set_limit-own :
    (env : Env) (cfg : Settings) (u : User) (c p1 : Bytes) (i j : MemoInfo) (st : Limits)
    → u.services_admin ≡ true
    → env.findchan c ≢ 0
    → env.chan_verboten (env.findchan c) ≡ false
    → isdigit p1 ≡ true
    → info_of c st.infos ≡ some i
    → get_memoinfo_from_owner env u.nick st.infos ≡ found j
    → i.memoinfo_id ≢ j.memoinfo_id
    → let st' = (do_set_limit env cfg u (some c) (some p1) none none st).0 in
      (st'.infos ≡ set_memo_limit j.memoinfo_id (admin_limit cfg p1) st.infos)
      × (info_of c st'.infos ≡ some i)
unfolding do_set_limit admin_set
do_set_limit-own env cfg u c p1 i j st a f v d e g o =
    let there : env.findchan c == 0 ≡ false = ground (arith, f) in
    let infos = set_memo_limit j.memoinfo_id (admin_limit cfg p1) st.infos in
    let result : (do_set_limit env cfg u (some c) (some p1) none none st).0
        ≡ record st { infos = infos; hard_chan = put false (env.findchan c) st.hard_chan } =
      simp (do_set_limit, there, v, a, admin_set, d, g) in
    subst (λ (x : Limits). (x.infos ≡ infos) × (info_of c x.infos ≡ some i)) (sym result)
      (refl, info_of-set_memo_limit c j.memoinfo_id (admin_limit cfg p1) i st.infos e o)
