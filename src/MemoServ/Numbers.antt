-- ===== src/MemoServ/Numbers.antt =====
-- The numbers of memos.
use oftc_blitzed.Base.{
  ℕ, zero, suc, ◌+◌, ◌≡◌, refl, sym, ap, ◌∙◌, true, ◌&&◌, List, [], ◌∷◌, ◌++◌, arith, if◌then◌else◌,
  Bytes, Bool-cases, inl, inr,
}
use oftc_blitzed.Text.Fold.{stricmp_refl}
use oftc_blitzed.MemoServ.{
  Memo, Db, Env, owned, count_memos, number_from, rotate, rot13, remove, send_memo, delete_memos,
  isdigit,
}

-- The numbers of an owner's memos, in the order of time.
abbrev pub numbers : Bytes → List Memo → List ℕ
numbers owner [] = []
numbers owner (m ∷ l) = if owned owner m then m.idx ∷ numbers owner l else numbers owner l

abbrev pub count_up : ℕ → ℕ → List ℕ
count_up n zero = []
count_up n (suc k) = (n + 1) ∷ count_up (n + 1) k

number_from-numbers :
    (n : ℕ) (owner : Bytes) (l : List Memo)
    → numbers owner (number_from n owner l) ≡ count_up n (count_memos owner l)
unfolding number_from count_memos
number_from-numbers n owner [] = refl
number_from-numbers n owner (m ∷ l) = elim (Bool-cases (owned owner m)) [
  | inl h ↦
      rw (number_from, count_memos, h, stricmp_refl owner)
        (ap (λ k. (n + 1) ∷ k) (number_from-numbers (n + 1) owner l))
  | inr h ↦ rw (number_from, count_memos, h) (rw h (number_from-numbers n owner l))
]

-- Nothing else of an owner's memos changes, and nothing of the others'.
number_from-count :
    (n : ℕ) (owner : Bytes) (l : List Memo)
    → count_memos owner (number_from n owner l) ≡ count_memos owner l
unfolding number_from count_memos
number_from-count n owner [] = refl
number_from-count n owner (m ∷ l) = elim (Bool-cases (owned owner m)) [
  | inl h ↦
      rw (number_from, count_memos, h, stricmp_refl owner)
        (ap suc (number_from-count (n + 1) owner l))
  | inr h ↦ rw (number_from, count_memos, h) (rw (count_memos, h) (number_from-count n owner l))
]

count_memos-++ :
    (owner : Bytes) (l k : List Memo)
    → count_memos owner (l ++ k) ≡ count_memos owner l + count_memos owner k
unfolding count_memos
count_memos-++ owner [] k = omega arith
count_memos-++ owner (m ∷ l) k = ground (arith, count_memos-++ owner l k)

count_memos-one : (owner : Bytes) (m : Memo) → owned owner m ≡ true → count_memos owner (m ∷ []) ≡ 1
unfolding count_memos
count_memos-one owner m h = rw (count_memos, h) refl

-- What is sent is stored, and the memos of the one who gets it are numbered from 1 on.
pub send_memo-numbers :
    (env : Env) (now : ℕ) (name source text : Bytes) (db : Db)
    → numbers name (send_memo env now name source text db).memos
      ≡ count_up 0 (count_memos name db.memos + 1)
unfolding send_memo
send_memo-numbers env now name source text db =
    let new : Memo = record {
      memo_id = db.next_id;
      owner = name;
      idx = 0;
      unread = true;
      time = now;
      sender = source;
      text = if env.rot13 then rot13 text else text;
    } in
    number_from-numbers 0 name (db.memos ++ new ∷ [])
    ∙ ap (count_up 0) (
        count_memos-++ name db.memos (new ∷ [])
        ∙ ap (λ k. count_memos name db.memos + k) (count_memos-one name new (stricmp_refl name)))

pub send_memo-count :
    (env : Env) (now : ℕ) (name source text : Bytes) (db : Db)
    → count_memos name (send_memo env now name source text db).memos ≡ count_memos name db.memos + 1
unfolding send_memo
send_memo-count env now name source text db =
    let new : Memo = record {
      memo_id = db.next_id;
      owner = name;
      idx = 0;
      unread = true;
      time = now;
      sender = source;
      text = if env.rot13 then rot13 text else text;
    } in
    number_from-count 0 name (db.memos ++ new ∷ [])
    ∙ (count_memos-++ name db.memos (new ∷ [])
        ∙ ap (λ k. count_memos name db.memos + k) (count_memos-one name new (stricmp_refl name)))

remove-owned :
    (owner : Bytes) (l : List Memo)
    → (numbers owner (remove (owned owner) l) ≡ [])
      × (count_memos owner (remove (owned owner) l) ≡ 0)
unfolding count_memos
remove-owned owner [] = (refl, refl)
remove-owned owner (m ∷ l) = elim (Bool-cases (owned owner m)) [
  | inl h ↦ rw h (remove-owned owner l)
  | inr h ↦ rw (h, count_memos, h) (remove-owned owner l)
]

-- After DEL the memos that an owner has left are numbered from 1 on, without gaps.
pub delete_memos-numbers :
    (env : Env) (owner numstr : Bytes) (db : Db)
    → numbers owner (delete_memos env owner numstr db).memos
      ≡ count_up 0 (count_memos owner (delete_memos env owner numstr db).memos)
unfolding delete_memos
delete_memos-numbers env owner numstr db = elim (Bool-cases (isdigit numstr)) [
  | inl h ↦
      let left = remove (λ m. owned owner m && env.picks numstr m.idx) db.memos in
      rw h
        (number_from-numbers 0 owner left ∙ ap (count_up 0) (sym (number_from-count 0 owner left)))
  | inr h ↦ let (a, b) = remove-owned owner db.memos in rw h (a ∙ ap (count_up 0) (sym b))
]

rotate-rotate : (c : ℕ) → rotate (rotate c) ≡ c
rotate-rotate c = ground arith

-- rot13 twice is the text itself.
pub rot13-rot13 : (s : Bytes) → rot13 (rot13 s) ≡ s
unfolding rot13
rot13-rot13 [] = refl
rot13-rot13 (c ∷ s) = rw (rotate-rotate c, rot13-rot13 s) refl
