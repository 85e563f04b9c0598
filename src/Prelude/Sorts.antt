-- ===== src/Prelude/Sorts.antt =====
-- Python's `sorted`: a stable sort by a strict order, and counts, which it keeps.
use Prim.Native.Nat.{ℕ, ◌+◌}
use mathlib.Core.Path.{◌≡◌, refl, sym, ◌∙◌}
use mathlib.Core.Logic.{inl, inr}
use mathlib.Core.Bool.{Bool, true, ◌||◌}
use mathlib.Core.List.{List, [], ◌∷◌, ◌++◌}
use native.Mathlib.Omega.{arith}
use thorondor.Prelude.Tests.{if◌then◌else◌, Bool-cases, ltb}
use thorondor.Prelude.Lists.{length, any, All}

module _ {ℓ} {A : Type ℓ} where
  abbrev pub insert_sorted : (A → A → Bool) → A → List A → List A
  insert_sorted before x [] = x ∷ []
  insert_sorted before x (y ∷ ys) =
      let rest = insert_sorted before x ys in if before y x then y ∷ rest else x ∷ y ∷ ys

  abbrev pub sort : (A → A → Bool) → List A → List A
  sort before [] = []
  sort before (x ∷ xs) = insert_sorted before x (sort before xs)

  -- How many elements a test holds of.
  abbrev pub count : (A → Bool) → List A → ℕ
  count test [] = 0
  count test (x ∷ xs) = (if test x then 1 else 0) + count test xs

  pub count-append :
      (test : A → Bool) (xs ys : List A) → count test (xs ++ ys) ≡ count test xs + count test ys
  count-append test [] ys = omega arith
  count-append test (x ∷ xs) ys = omega (arith, count-append test xs ys)

  count-insert_sorted :
      (test : A → Bool) (before : A → A → Bool) (x : A) (xs : List A)
      → count test (insert_sorted before x xs) ≡ (if test x then 1 else 0) + count test xs
  count-insert_sorted test before x [] = refl
  count-insert_sorted test before x (y ∷ ys) = elim (Bool-cases (before y x)) [
    | inl e ↦ rw e (omega (arith, count-insert_sorted test before x ys))
    | inr e ↦ rw e refl
  ]

  pub count-sort :
      (test : A → Bool) (before : A → A → Bool) (xs : List A)
      → count test (sort before xs) ≡ count test xs
  count-sort test before [] = refl
  count-sort test before (x ∷ xs) =
      omega (arith, count-insert_sorted test before x (sort before xs), count-sort test before xs)

  pub length-count : (xs : List A) → count (λ x. true) xs ≡ length xs
  length-count [] = refl
  length-count (x ∷ xs) = omega (arith, length-count xs)

  pub length-sort : (before : A → A → Bool) (xs : List A) → length (sort before xs) ≡ length xs
  length-sort before xs =
      omega
        (arith, length-count (sort before xs), count-sort (λ x. true) before xs, length-count xs)

  pub any-append :
      (test : A → Bool) (xs ys : List A) → any test (xs ++ ys) ≡ any test xs || any test ys
  any-append test [] ys = refl
  any-append test (x ∷ xs) ys = rw (any-append test xs ys) (ground arith)

  -- A test holds of some element or of none.
  pub any-count : (test : A → Bool) (xs : List A) → any test xs ≡ ltb 0 (count test xs)
  any-count test [] = refl
  any-count test (x ∷ xs) = elim (Bool-cases (test x)) [
    | inl e ↦ rw e (ground arith)
    | inr e ↦ let same = any-count test xs in rw e (ground (arith, same))
  ]

  pub any-sort :
      (test : A → Bool) (before : A → A → Bool) (xs : List A)
      → any test (sort before xs) ≡ any test xs
  any-sort test before xs =
      any-count test (sort before xs) ∙ rw (count-sort test before xs) (sym (any-count test xs))

module _ {ℓ κ} {A : Type ℓ} where
  pub All-insert_sorted :
      (P : A → Type κ) (before : A → A → Bool) (x : A) (xs : List A)
      → P x
      → All P xs
      → All P (insert_sorted before x xs)
  All-insert_sorted P before x [] px h = (px, tt)
  All-insert_sorted P before x (y ∷ ys) px (py, h) = elim (Bool-cases (before y x)) [
    | inl e ↦ rw e (py, All-insert_sorted P before x ys px h)
    | inr e ↦ rw e (px, (py, h))
  ]

  pub All-sort :
      (P : A → Type κ) (before : A → A → Bool) (xs : List A) → All P xs → All P (sort before xs)
  All-sort P before [] h = tt
  All-sort P before (x ∷ xs) (px, h) =
      All-insert_sorted P before x (sort before xs) px (All-sort P before xs h)
