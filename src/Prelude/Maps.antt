-- ===== src/Prelude/Maps.antt =====
-- A `Map` with text keys: its entries in order of insertion. Writing to a present key keeps its
-- place, as JavaScript's `Map.set` does.
use Prim.Native.String.{String}
use mathlib.Core.Path.{◌≡◌, refl, sym, subst, ap}
use mathlib.Core.Logic.{◌⊎◌, inl, inr}
use mathlib.Core.Bool.{Bool, true, false}
use mathlib.Core.Option.{Option, none, some}
use mathlib.Core.List.{List, [], ◌∷◌, map}
use native.Mathlib.Omega.{arith}
use text.Mathlib.Text.{◌==◌}
use text.Mathlib.TextEquality.{eq_iff}
use text.Mathlib.TextPositions.{eq_refl}
use talenttrust_backend.Prelude.Tests.{if◌then◌else◌, is_some, Bool-cases}
use talenttrust_backend.Prelude.Lists.{All}

abbrev pub Table {ℓ} : Type ℓ → Type ℓ
Table V = List (String × V)

module _ {ℓ} {V : Type ℓ} where
  unfoldable pub get : String → Table V → Option V
  get k [] = none
  get k ((j, v) ∷ m) = if j == k then some v else get k m

  unfoldable pub put : String → V → Table V → Table V
  put k v [] = (k, v) ∷ []
  put k v ((j, w) ∷ m) = if j == k then (j, v) ∷ m else (j, w) ∷ put k v m

  unfoldable pub remove : String → Table V → Table V
  remove k [] = []
  remove k ((j, w) ∷ m) = if j == k then remove k m else (j, w) ∷ remove k m

  abbrev pub has : String → Table V → Bool
  has k m = is_some (get k m)

  abbrev pub values : Table V → List V
  values m = map (λ e. e.1) m

  pub get-put :
      (k j : String) (v : V) (m : Table V)
      → get j (put k v m) ≡ (if k == j then some v else get j m)
  unfolding get put
  get-put k j v [] = refl
  get-put k j v ((i, w) ∷ m) = ground (arith, eq_iff k j, eq_iff i k, eq_iff i j, get-put k j v m)

  pub get-remove :
      (k j : String) (m : Table V) → get j (remove k m) ≡ (if k == j then none else get j m)
  unfolding get remove
  get-remove k j [] = ground arith
  get-remove k j ((i, w) ∷ m) = ground (arith, eq_iff k j, eq_iff i k, eq_iff i j, get-remove k j m)

  -- What a key holds after a write: the written value under its key, else what it held.
  pub get-put_cases :
      (k j : String) (v : V) (m : Table V) {e : V}
      → get j (put k v m) ≡ some e
      → ((k ≡ j) × (e ≡ v)) ⊎ (get j m ≡ some e)
  get-put_cases k j v m h = elim (Bool-cases (k == j)) [
    | inl same ↦
        let written : some v ≡ some _ = rw (get-put, same) at h in
        inl ((eq_iff k j).0 same, sym (ground arith))
    | inr other ↦ inr (rw (get-put, other) at h)
  ]

  pub get-put_self : (k : String) (v : V) (m : Table V) → get k (put k v m) ≡ some v
  get-put_self k v m = simp (get-put, eq_refl)

  pub get-remove_self : (k : String) (m : Table V) → get k (remove k m) ≡ none
  get-remove_self k m = simp (get-remove, eq_refl)

module _ {ℓ κ} {V : Type ℓ} (P : String × V → Type κ) where
  pub All-put : (k : String) (v : V) (m : Table V) → P (k, v) → All P m → All P (put k v m)
  unfolding put
  All-put k v [] p h = (p, tt)
  All-put k v ((j, w) ∷ m) p (q, h) = elim (Bool-cases (j == k)) [
    | inl same ↦ rw same (subst (λ i. P (i, v)) (sym ((eq_iff j k).0 same)) p, h)
    | inr other ↦ rw other (q, All-put k v m p h)
  ]

  pub All-get : (k : String) (m : Table V) {v : V} → get k m ≡ some v → All P m → P (k, v)
  unfolding get
  All-get k [] e h = cc
  All-get k ((j, w) ∷ m) {v} e (q, h) = elim (Bool-cases (j == k)) [
    | inl same ↦
        let same_entry : ◌≡◌ {A = String × V} (j, w) (k, v) = ground (arith, eq_iff j k) in
        subst P same_entry q
    | inr other ↦ All-get k m (rw other at e) h
  ]

  -- The keys of a table are none of those that it lacks.
  pub All-absent :
      (k : String) (m : Table V)
      → get k m ≡ none
      → All P m
      → All (λ e. P e × ((k == e.0) ≡ false)) m
  unfolding get
  All-absent k [] e h = tt
  All-absent k ((j, w) ∷ m) e (q, h) =
      ((q, ground (arith, eq_iff j k, eq_iff k j)), All-absent k m (ground arith) h)

module _ {ℓ} {V : Type ℓ} where
  -- No key stands twice.
  abbrev pub IsMap : Table V → Type ℓ
  IsMap [] = Unit
  IsMap ((k, v) ∷ m) = (get k m ≡ none) × IsMap m

  pub put-IsMap : (k : String) (v : V) (m : Table V) → IsMap m → IsMap (put k v m)
  unfolding get put
  put-IsMap k v [] h = (refl, tt)
  put-IsMap k v ((j, w) ∷ m) (p, h) =
      ground (arith, put-IsMap k v m h, get-put k j v m, eq_iff k j, eq_iff j k)

  pub remove-IsMap : (k : String) (m : Table V) → IsMap m → IsMap (remove k m)
  unfolding get remove
  remove-IsMap k [] h = tt
  remove-IsMap k ((j, w) ∷ m) (p, h) = ground (arith, remove-IsMap k m h, get-remove k j m)

  -- Deleting, in a loop over a map's entries, those whose value fails a test.
  unfoldable pub keep_entries : (V → Bool) → Table V → Table V
  keep_entries p [] = []
  keep_entries p ((k, v) ∷ m) = let rest = keep_entries p m in if p v then (k, v) ∷ rest else rest

  abbrev pub keep_found : (V → Bool) → Option V → Option V
  keep_found p none = none
  keep_found p (some v) = if p v then some v else none

  pub keep_found-some :
      (p : V → Bool) (o : Option V) {v : V} → keep_found p o ≡ some v → (o ≡ some v) × (p v ≡ true)
  keep_found-some p o h = ground arith

  pub get-keep_entries :
      (p : V → Bool) (k : String) (m : Table V)
      → IsMap m
      → get k (keep_entries p m) ≡ keep_found p (get k m)
  unfolding get keep_entries
  get-keep_entries p k [] h = refl
  get-keep_entries p k ((j, w) ∷ m) (q, h) =
      ground (arith, get-keep_entries p k m h, eq_iff j k, ap (λ i. get i m) {x = j} {y = k})

  pub keep_entries-IsMap : (p : V → Bool) (m : Table V) → IsMap m → IsMap (keep_entries p m)
  unfolding get keep_entries
  keep_entries-IsMap p [] h = tt
  keep_entries-IsMap p ((j, w) ∷ m) (q, h) =
      ground (arith, keep_entries-IsMap p m h, get-keep_entries p j m h)
