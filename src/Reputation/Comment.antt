-- ===== src/Reputation/Comment.antt =====
-- services/reputation.service.ts: which comments pass.
use Prim.Native.String.{[] as empty, ◌∷◌ as ◌then◌}
use talenttrust_backend.Prelude.{
  ℕ, suc, ◌+◌, ◌*◌, ◌≤◌, String, true, false, none, some, List, [], ◌∷◌, length, keep_if, or_else,
  str_eq, eq_iff, eq_refl, Table, get, put, get-put, IsMap, put-IsMap, characters, utf16_length, ok,
  ltb, ◌≡◌, refl, sym, ap, ◌↔◌, inl, inr, arith, Bool-cases, if◌then◌else◌, ◌∙◌,
}
use talenttrust_backend.Reputation.{
  Environment, count_characters, max_count, validate_comment, check_comment,
}

abbrev pub occurrences : String → List String → ℕ
occurrences x cs = length (keep_if (λ c. str_eq c x) cs)

abbrev number_of : String → Table ℕ → ℕ
number_of x counts = or_else (get x counts) 0

number_of-put :
    (x c : String) (n : ℕ) (counts : Table ℕ)
    → number_of x (put c n counts) ≡ (if str_eq c x then n else number_of x counts)
number_of-put x c n counts =
    rw (get-put c x n counts)
      (elim (Bool-cases (str_eq c x)) [ inl same ↦ rw same refl | inr other ↦ rw other refl ])

number_of-count_characters :
    (x : String) (cs : List String) (counts : Table ℕ)
    → number_of x (count_characters cs counts) ≡ number_of x counts + occurrences x cs
unfolding count_characters
number_of-count_characters x [] counts = omega arith
number_of-count_characters x (c ∷ cs) counts =
    let rest = number_of-count_characters x cs (put c (suc (number_of c counts)) counts) in
    let step = number_of-put x c (suc (number_of c counts)) counts in
    elim (Bool-cases (str_eq c x)) [
      | inl same ↦
          let e : number_of c counts ≡ number_of x counts =
            ap (λ k. number_of k counts) ((eq_iff c x).0 same) in
          let s : number_of x (put c (suc (number_of c counts)) counts) ≡ suc (number_of c counts) =
            rw same at step in
          rw same (omega (arith, rest, s, e))
      | inr other ↦
          let s : number_of x (put c (suc (number_of c counts)) counts) ≡ number_of x counts =
            rw other at step in
          rw other (omega (arith, rest, s))
    ]

count_characters-IsMap :
    (cs : List String) (counts : Table ℕ) → IsMap counts → IsMap (count_characters cs counts)
unfolding count_characters
count_characters-IsMap [] counts h = h
count_characters-IsMap (c ∷ cs) counts h =
    count_characters-IsMap cs _ (put-IsMap c (suc (number_of c counts)) counts h)

number_of-max_count : (x : String) (counts : Table ℕ) → number_of x counts ≤ max_count counts
unfolding get
number_of-max_count x [] = omega arith
number_of-max_count x ((c, n) ∷ counts) =
    let rest = number_of-max_count x counts in
    elim (Bool-cases (str_eq c x)) [
      | inl same ↦ rw same (omega arith)
      | inr other ↦ rw other (omega (arith, rest))
    ]

max_count_least :
    (b : ℕ) (counts : Table ℕ)
    → IsMap counts
    → ((x : String) → number_of x counts * 2 ≤ b)
    → max_count counts * 2 ≤ b
unfolding get
max_count_least b [] h all = omega arith
max_count_least b ((c, n) ∷ counts) (absent, h) all =
    let head : n * 2 ≤ b = rw (eq_refl c) at (all c) in
    let rest = max_count_least b counts h tail in omega (arith, head, rest)
  where
    tail : (x : String) → number_of x counts * 2 ≤ b
    tail x = elim (Bool-cases (str_eq c x)) [
      | inl same ↦
          let e : get x counts ≡ none =
            ap (λ k. get k counts) (sym ((eq_iff c x).0 same)) ∙ absent in
          rw e (omega arith)
      | inr other ↦ rw other at (all x)
    ]

max_count_bound :
    (cs : List String) (b : ℕ)
    → (max_count (count_characters cs []) * 2 ≤ b) ↔ ((x : String) → occurrences x cs * 2 ≤ b)
unfolding get
max_count_bound cs b = (
  λ most x. omega (
    arith,
    most,
    number_of-max_count x (count_characters cs []),
    number_of-count_characters x cs [],
  ),
  λ all.
      max_count_least b (count_characters cs []) (count_characters-IsMap cs [] tt)
        (λ x. omega (arith, all x, number_of-count_characters x cs [])),
)

some_units : (comment : String) → str_eq comment "" ≡ false → ltb 0 (utf16_length comment) ≡ true
unfolding utf16_length
some_units empty h = cc (h)
some_units (c then rest) h = ground arith

module _ (v : Environment) where
  -- A comment that is not empty passes exactly when it has at most 1000 UTF-16 code units, is not
  -- blank, and no character occurs more than half as often as it has code units.
  pub check_comment_lem :
      (comment : String)
      → str_eq comment "" ≡ false
      → (check_comment v (some comment) ≡ ok tt) ↔ (
          (utf16_length comment ≤ 1000)
          × (str_eq (v.trim comment) "" ≡ false)
          × ((x : String) → occurrences x (characters comment) * 2 ≤ utf16_length comment))
  unfolding validate_comment
  check_comment_lem comment filled =
      let (to, from) = max_count_bound (characters comment) (utf16_length comment) in
      rw (filled, some_units comment filled)
        (ground arith, λ (short, shown, rare). let most = from rare in ground arith)
