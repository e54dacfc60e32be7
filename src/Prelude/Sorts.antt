-- ===== src/Prelude/Sorts.antt =====
-- `Array.prototype.sort`: a stable sort. `leq a b` says that `a` may stand before `b`.
use Prim.Native.Nat.{suc}
use mathlib.Core.Path.{◌≡◌, refl}
use native.Mathlib.Omega.{arith}
use mathlib.Core.Logic.{inl, inr}
use mathlib.Core.Bool.{Bool, true, false}
use mathlib.Core.List.{List, [], ◌∷◌, Perm}
use mathlib.Core.List.Perm
use talenttrust_backend.Prelude.Tests.{if◌then◌else◌, Bool-cases}
use talenttrust_backend.Prelude.Lists.{All, All-map, length}

module _ {ℓ} {A : Type ℓ} (leq : A → A → Bool) where
  unfoldable pub insert_sorted : A → List A → List A
  insert_sorted x [] = x ∷ []
  insert_sorted x (y ∷ ys) = if leq x y then x ∷ y ∷ ys else y ∷ insert_sorted x ys

  unfoldable pub sort : List A → List A
  unfolding insert_sorted
  sort [] = []
  sort (x ∷ xs) = insert_sorted x (sort xs)

  -- Every item may stand before all that follow it.
  abbrev pub IsSorted : List A → Type 0
  IsSorted [] = Unit
  IsSorted (x ∷ xs) = All (λ y. leq x y ≡ true) xs × IsSorted xs

  insert_sorted-perm : (x : A) (xs : List A) → Perm (insert_sorted x xs) (x ∷ xs)
  unfolding insert_sorted
  insert_sorted-perm x [] = Perm.refl (x ∷ [])
  insert_sorted-perm x (y ∷ ys) = elim (Bool-cases (leq x y)) [
    | inl first ↦ rw first (Perm.refl (x ∷ y ∷ ys))
    | inr later ↦ rw later (Perm.trans (Perm.cons y (insert_sorted-perm x ys)) (Perm.swap x y ys))
  ]

  pub sort-perm : (xs : List A) → Perm (sort xs) xs
  unfolding sort
  sort-perm [] = Perm.refl []
  sort-perm (x ∷ xs) = Perm.trans (insert_sorted-perm x (sort xs)) (Perm.cons x (sort-perm xs))

  insert_sorted-All {κ} :
      (P : A → Type κ) (x : A) (xs : List A) → P x → All P xs → All P (insert_sorted x xs)
  unfolding insert_sorted
  insert_sorted-All P x [] p h = (p, tt)
  insert_sorted-All P x (y ∷ ys) p (q, h) = elim (Bool-cases (leq x y)) [
    | inl first ↦ rw first (p, (q, h))
    | inr later ↦ rw later (q, insert_sorted-All P x ys p h)
  ]

  pub sort-All {κ} : (P : A → Type κ) (xs : List A) → All P xs → All P (sort xs)
  unfolding sort
  sort-All P [] h = tt
  sort-All P (x ∷ xs) (p, h) = insert_sorted-All P x (sort xs) p (sort-All P xs h)

  insert_sorted-unsorted {κ} :
      (P : A → Type κ) (x : A) (xs : List A) → All P (insert_sorted x xs) → P x × All P xs
  unfolding insert_sorted
  insert_sorted-unsorted P x [] h = h
  insert_sorted-unsorted P x (y ∷ ys) h = elim (Bool-cases (leq x y)) [
    | inl first ↦ (rw first at h)
    | inr later ↦
        let (q, rest) = (rw later at h) in
        let (p, others) = insert_sorted-unsorted P x ys rest in (p, (q, others))
  ]

  pub sort-unsorted {κ} : (P : A → Type κ) (xs : List A) → All P (sort xs) → All P xs
  unfolding sort
  sort-unsorted P [] h = tt
  sort-unsorted P (x ∷ xs) h =
      let (p, rest) = insert_sorted-unsorted P x (sort xs) h in (p, sort-unsorted P xs rest)

  length-insert_sorted : (x : A) (xs : List A) → length (insert_sorted x xs) ≡ suc (length xs)
  unfolding insert_sorted
  length-insert_sorted x [] = refl
  length-insert_sorted x (y ∷ ys) = ground (arith, length-insert_sorted x ys)

  pub length-sort : (xs : List A) → length (sort xs) ≡ length xs
  unfolding sort
  length-sort [] = refl
  length-sort (x ∷ xs) = omega (arith, length-insert_sorted x (sort xs), length-sort xs)

module _ {ℓ} {A : Type ℓ} (leq : A → A → Bool)
    (total : (x y : A) → leq x y ≡ false → leq y x ≡ true)
    (trans : (x y z : A) → leq x y ≡ true → leq y z ≡ true → leq x z ≡ true) where
  insert_sorted-IsSorted :
      (x : A) (xs : List A) → IsSorted leq xs → IsSorted leq (insert_sorted leq x xs)
  unfolding insert_sorted
  insert_sorted-IsSorted x [] h = (tt, tt)
  insert_sorted-IsSorted x (y ∷ ys) (p, h) = elim (Bool-cases (leq x y)) [
    | inl first ↦ rw first ((first, All-map _ _ ys (λ z. trans x y z first) p), (p, h))
    | inr later ↦ rw later (
      insert_sorted-All leq (λ z. leq y z ≡ true) x ys (total x y later) p,
      insert_sorted-IsSorted x ys h,
    )
  ]

  pub sort-IsSorted : (xs : List A) → IsSorted leq (sort leq xs)
  unfolding sort
  sort-IsSorted [] = tt
  sort-IsSorted (x ∷ xs) = insert_sorted-IsSorted x (sort leq xs) (sort-IsSorted xs)
