-- ===== src/Text/Search.antt =====
-- What stristr finds.
use oftc_blitzed.Base.{
  ℕ, ◌≡◌, ◌≢◌, refl, sym, ap, ap₂, subst, ◌∙◌, inl, inr, true, Bool-cases, [], ◌∷◌, ◌++◌, none,
  some, arith, Bytes, ◌==◌, append-nil, append_assoc,
}
use oftc_blitzed.Text.{tolower, strlower, search, stristr}

-- `r` is a suffix of `s1` that begins with `s2`, up to case.
pub record Occurs (s1 s2 r : Bytes) : Type 0 where
  pub before : Bytes
  pub found : Bytes
  pub after : Bytes
  pub suffix : s1 ≡ before ++ r
  pub prefix : r ≡ found ++ after
  pub fold : strlower found ≡ strlower s2

strlower-append : (s t : Bytes) → strlower (s ++ t) ≡ strlower s ++ strlower t
unfolding strlower
strlower-append [] t = refl
strlower-append (c ∷ s) t = rw (strlower-append s t)

-- So far `before` has been passed, and `found` fits the beginning of what is looked for.
record Partial (all s2 s s1 d : Bytes) : Type 0 where
  before : Bytes
  found : Bytes
  done : Bytes
  suffix : all ≡ before ++ s
  prefix : s ≡ found ++ s1
  split : s2 ≡ done ++ d
  fold : strlower found ≡ strlower done

restart : (all s2 s s1 d : Bytes) (c : ℕ) → Partial all s2 s (c ∷ s1) d → Partial all s2 s1 s1 s2
restart all s2 s s1 d c p = record {
  before = p.before ++ (p.found ++ c ∷ []);
  found = [];
  done = [];
  suffix =
      p.suffix
      ∙ ap (λ x. p.before ++ x) (p.prefix ∙ sym (append_assoc p.found (c ∷ []) s1))
      ∙ sym (append_assoc p.before (p.found ++ c ∷ []) s1);
  prefix = refl;
  split = refl;
  fold = refl;
}

advance :
    (all s2 s s1 d : Bytes) (c e : ℕ)
    → (tolower c == tolower e) ≡ true
    → Partial all s2 s (c ∷ s1) (e ∷ d)
    → Partial all s2 s s1 d
unfolding strlower
advance all s2 s s1 d c e h p = record {
  before = p.before;
  found = p.found ++ c ∷ [];
  done = p.done ++ e ∷ [];
  suffix = p.suffix;
  prefix = p.prefix ∙ sym (append_assoc p.found (c ∷ []) s1);
  split = p.split ∙ sym (append_assoc p.done (e ∷ []) d);
  fold =
      let q : tolower c ≡ tolower e = ground (arith, h) in
      strlower-append p.found (c ∷ [])
      ∙ ap₂ (λ x y. x ++ y ∷ []) p.fold q
      ∙ sym (strlower-append p.done (e ∷ []));
}

complete : (all s2 s s1 : Bytes) → Partial all s2 s s1 [] → Occurs all s2 s
complete all s2 s s1 p = record {
  before = p.before;
  found = p.found;
  after = s1;
  suffix = p.suffix;
  prefix = p.prefix;
  fold = p.fold ∙ ap strlower (sym (p.split ∙ append-nil p.done));
}

search-Occurs :
    (all s2 s s1 d r : Bytes) → Partial all s2 s s1 d → search s2 s s1 d ≡ some r → Occurs all s2 r
unfolding search
search-Occurs all s2 s [] d r p h = absurd (cc)
search-Occurs all s2 s (c ∷ s1) [] r p h =
    search-Occurs all s2 s1 s1 s2 r (restart all s2 s s1 [] c p) h
search-Occurs all s2 s (c ∷ s1) (e ∷ []) r p h = elim (Bool-cases (tolower c == tolower e)) [
  | inl q ↦
      let same : s ≡ r = ground (arith, rw q at h) in
      subst (Occurs all s2) same (complete all s2 s s1 (advance all s2 s s1 [] c e q p))
  | inr q ↦ search-Occurs all s2 s1 s1 s2 r (restart all s2 s s1 (e ∷ []) c p) (rw q at h)
]
search-Occurs all s2 s (c ∷ s1) (e ∷ f ∷ d) r p h = elim (Bool-cases (tolower c == tolower e)) [
  | inl q ↦ search-Occurs all s2 s s1 (f ∷ d) r (advance all s2 s s1 (f ∷ d) c e q p) (rw q at h)
  | inr q ↦ search-Occurs all s2 s1 s1 s2 r (restart all s2 s s1 (e ∷ f ∷ d) c p) (rw q at h)
]

-- What stristr answers is a suffix of the string that begins with what was looked for, up to case.
pub stristr-Occurs : (s1 s2 r : Bytes) → stristr s1 s2 ≡ some r → Occurs s1 s2 r
unfolding stristr
stristr-Occurs s1 s2 r h =
    search-Occurs s1 s2 s1 s1 s2 r
      (record {
        before = [];
        found = [];
        done = [];
        suffix = refl;
        prefix = refl;
        split = refl;
        fold = refl;
      })
      h

search-fits :
    (s2 s found after d : Bytes) (e : ℕ)
    → strlower found ≡ strlower (e ∷ d)
    → search s2 s (found ++ after) (e ∷ d) ≡ some s
unfolding search strlower
search-fits s2 s [] after d e h = ground (arith, h)
search-fits s2 s (c ∷ []) after [] e h = ground (arith, h)
search-fits s2 s (c ∷ []) after (f ∷ d) e h = ground (arith, h)
search-fits s2 s (c ∷ b ∷ found) after [] e h = ground (arith, h)
search-fits s2 s (c ∷ b ∷ found) after (f ∷ d) e h =
    ground (arith, h, search-fits s2 s (b ∷ found) after d f)

-- On a string that begins with what is looked for, up to case, and with at least one byte of it,
-- stristr answers the string itself, which is what the test for guest nicks asks.
pub stristr-prefix :
    (found after d : Bytes) (e : ℕ)
    → strlower found ≡ strlower (e ∷ d)
    → stristr (found ++ after) (e ∷ d) ≡ some (found ++ after)
unfolding stristr
stristr-prefix found after d e h = search-fits (e ∷ d) (found ++ after) found after d e h

-- Of c, c, d in c, c, c, d nothing is found, where the letters differ up to case: after the second
-- match of c with c the search goes on behind the byte that did not fit.
pub stristr-misses :
    (c d : ℕ) → tolower c ≢ tolower d → stristr (c ∷ c ∷ c ∷ d ∷ []) (c ∷ c ∷ d ∷ []) ≡ none
unfolding stristr search
stristr-misses c d n = ground (arith, n)
