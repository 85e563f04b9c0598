-- ===== src/Prelude/Lists.antt =====
-- Lists measured and indexed by native numbers, changed in place, and predicates over them.
use Prim.Native.Nat.{ℕ, zero, suc, ◌+◌, ◌≤◌, ◌<◌}
use mathlib.Core.Path.{◌≡◌, refl, ap}
use mathlib.Core.Logic.{◌≢◌, ◌⊎◌, inl, inr}
use mathlib.Core.Bool.{Bool, false, ◌||◌}
use mathlib.Core.List.{List, [], ◌∷◌, ◌++◌}
use mathlib.Core.Option.{Option, none, some}
use native.Mathlib.Omega.{arith}
use thorondor.Prelude.Tests.{if◌then◌else◌}

module _ {ℓ} {A : Type ℓ} where
  abbrev pub length : List A → ℕ
  length [] = 0
  length (x ∷ xs) = suc (length xs)

  abbrev pub get_elem? : List A → ℕ → Option A
  get_elem? [] i = none
  get_elem? (x ∷ xs) zero = some x
  get_elem? (x ∷ xs) (suc i) = get_elem? xs i

  -- A change of the element at a position; out of bounds it changes nothing.
  abbrev pub modify : (A → A) → List A → ℕ → List A
  modify f [] i = []
  modify f (x ∷ xs) zero = f x ∷ xs
  modify f (x ∷ xs) (suc i) = x ∷ modify f xs i

  abbrev pub take : ℕ → List A → List A
  take zero xs = []
  take (suc n) [] = []
  take (suc n) (x ∷ xs) = x ∷ take n xs

  abbrev pub any : (A → Bool) → List A → Bool
  any p [] = false
  any p (x ∷ xs) = p x || any p xs

  abbrev pub filter_by : (A → Bool) → List A → List A
  filter_by p [] = []
  filter_by p (x ∷ xs) = let rest = filter_by p xs in if p x then x ∷ rest else rest

  -- The last element, or the default of an empty list.
  abbrev pub last_or : A → List A → A
  last_or d [] = d
  last_or d (x ∷ xs) = last_or x xs

  pub length-append : (xs ys : List A) → length (xs ++ ys) ≡ length xs + length ys
  length-append [] ys = omega arith
  length-append (x ∷ xs) ys = omega (arith, length-append xs ys)

  pub length-take-le : (n : ℕ) (xs : List A) → length (take n xs) ≤ n
  length-take-le zero xs = omega arith
  length-take-le (suc n) [] = omega arith
  length-take-le (suc n) (x ∷ xs) = omega (arith, length-take-le n xs)

module _ {ℓ} {A : Type ℓ} where
  pub length-modify : (f : A → A) (xs : List A) (i : ℕ) → length (modify f xs i) ≡ length xs
  length-modify f [] i = refl
  length-modify f (x ∷ xs) zero = refl
  length-modify f (x ∷ xs) (suc i) = ap suc (length-modify f xs i)

  pub get_elem?-modify_self :
      (f : A → A) (xs : List A) (i : ℕ) (a : A)
      → get_elem? xs i ≡ some a
      → get_elem? (modify f xs i) i ≡ some (f a)
  get_elem?-modify_self f [] i a h = ground arith
  get_elem?-modify_self f (x ∷ xs) zero a h = ground arith
  get_elem?-modify_self f (x ∷ xs) (suc i) a h = get_elem?-modify_self f xs i a h

  pub get_elem?-modify_ne :
      (f : A → A) (xs : List A) (i j : ℕ) → i ≢ j → get_elem? (modify f xs i) j ≡ get_elem? xs j
  get_elem?-modify_ne f [] i j h = refl
  get_elem?-modify_ne f (x ∷ xs) zero zero h = absurd (h refl)
  get_elem?-modify_ne f (x ∷ xs) zero (suc j) h = refl
  get_elem?-modify_ne f (x ∷ xs) (suc i) zero h = refl
  get_elem?-modify_ne f (x ∷ xs) (suc i) (suc j) h =
      get_elem?-modify_ne f xs i j (λ e. h (ap suc e))

  -- What stands at a position after a change, and what stood there before it.
  pub get_elem?-modify_inv :
      (f : A → A) (xs : List A) (i j : ℕ) (b : A)
      → get_elem? (modify f xs i) j ≡ some b
      → (a : A) × (get_elem? xs j ≡ some a) × ((b ≡ a) ⊎ ((j ≡ i) × (b ≡ f a)))
  get_elem?-modify_inv f [] i j b h = ground arith
  get_elem?-modify_inv f (x ∷ xs) zero zero b h = (x, refl, inr (refl, ground arith))
  get_elem?-modify_inv f (x ∷ xs) zero (suc j) b h = (b, h, inl refl)
  get_elem?-modify_inv f (x ∷ xs) (suc i) zero b h = (b, h, inl refl)
  get_elem?-modify_inv f (x ∷ xs) (suc i) (suc j) b h =
      let (a, e, c) = get_elem?-modify_inv f xs i j b h in
      (a, e, elim c [ inl same ↦ inl same | inr (at, new) ↦ inr (ap suc at, new) ])

  pub get_elem?-modify :
      (f : A → A) (xs : List A) (i j : ℕ) (a : A)
      → get_elem? xs j ≡ some a
      → (b : A) × (get_elem? (modify f xs i) j ≡ some b) × ((b ≡ a) ⊎ (b ≡ f a))
  get_elem?-modify f [] i j a h = ground arith
  get_elem?-modify f (x ∷ xs) zero zero a h = (f x, refl, inr (ground arith))
  get_elem?-modify f (x ∷ xs) zero (suc j) a h = (a, h, inl refl)
  get_elem?-modify f (x ∷ xs) (suc i) zero a h = (a, h, inl refl)
  get_elem?-modify f (x ∷ xs) (suc i) (suc j) a h = get_elem?-modify f xs i j a h

  -- What stands at a position of a list with one element more.
  pub get_elem?-concat :
      (xs : List A) (x : A) (i : ℕ) (a : A)
      → get_elem? (xs ++ x ∷ []) i ≡ some a
      → (get_elem? xs i ≡ some a) ⊎ ((i ≡ length xs) × (a ≡ x))
  get_elem?-concat [] x zero a h = inr (refl, ground arith)
  get_elem?-concat [] x (suc i) a h = ground arith
  get_elem?-concat (y ∷ xs) x zero a h = inl h
  get_elem?-concat (y ∷ xs) x (suc i) a h = elim (get_elem?-concat xs x i a h) [
    | inl old ↦ inl old
    | inr (e, same) ↦ inr (ap suc e, same)
  ]

  pub get_elem?-concat_last : (xs : List A) (x : A) → get_elem? (xs ++ x ∷ []) (length xs) ≡ some x
  get_elem?-concat_last [] x = refl
  get_elem?-concat_last (y ∷ xs) x = get_elem?-concat_last xs x

  pub get_elem?-concat_left :
      (xs : List A) (x : A) (i : ℕ) (a : A)
      → get_elem? xs i ≡ some a
      → get_elem? (xs ++ x ∷ []) i ≡ some a
  get_elem?-concat_left [] x i a h = ground arith
  get_elem?-concat_left (y ∷ xs) x zero a h = h
  get_elem?-concat_left (y ∷ xs) x (suc i) a h = get_elem?-concat_left xs x i a h

  pub get_elem?-lt-length : (xs : List A) (i : ℕ) (a : A) → get_elem? xs i ≡ some a → i < length xs
  get_elem?-lt-length [] i a h = ground arith
  get_elem?-lt-length (y ∷ xs) zero a h = omega arith
  get_elem?-lt-length (y ∷ xs) (suc i) a h = omega (arith, get_elem?-lt-length xs i a h)

  pub last_or-concat : (d : A) (xs : List A) (x : A) → last_or d (xs ++ x ∷ []) ≡ x
  last_or-concat d [] x = refl
  last_or-concat d (y ∷ xs) x = last_or-concat y xs x

-- A predicate by recursion, which the tactics take apart and build.
abbrev pub All {ℓ κ} : {A : Type ℓ} → (A → Type κ) → List A → Type κ
All P [] = Unit
All P (x ∷ xs) = P x × All P xs

module _ {ℓ κ} {A : Type ℓ} where
  pub All-append : (P : A → Type κ) (xs ys : List A) → All P xs → All P ys → All P (xs ++ ys)
  All-append P [] ys hx hy = hy
  All-append P (x ∷ xs) ys hx hy = (hx.0, All-append P xs ys hx.1 hy)

  pub All-modify :
      (P : A → Type κ) (f : A → A) (xs : List A) (i : ℕ)
      → ((a : A) → P a → P (f a))
      → All P xs
      → All P (modify f xs i)
  All-modify P f [] i keep h = tt
  All-modify P f (x ∷ xs) zero keep h = (keep x h.0, h.1)
  All-modify P f (x ∷ xs) (suc i) keep h = (h.0, All-modify P f xs i keep h.1)

  -- A change at one position, where only what stands there is known to keep the predicate.
  pub All-modify_at :
      (P : A → Type κ) (f : A → A) (xs : List A) (i : ℕ) (a : A)
      → get_elem? xs i ≡ some a
      → P (f a)
      → All P xs
      → All P (modify f xs i)
  All-modify_at P f [] i a e new h = tt
  All-modify_at P f (x ∷ xs) zero a e new h = let same : x ≡ a = cc in (rw same new, h.1)
  All-modify_at P f (x ∷ xs) (suc i) a e new h = (h.0, All-modify_at P f xs i a e new h.1)

  pub All-get_elem? :
      (P : A → Type κ) (xs : List A) (i : ℕ) (a : A) → All P xs → get_elem? xs i ≡ some a → P a
  All-get_elem? P [] i a h e = ground arith
  All-get_elem? P (x ∷ xs) zero a h e = ground arith
  All-get_elem? P (x ∷ xs) (suc i) a h e = All-get_elem? P xs i a h.1 e

  pub All-map : {P Q : A → Type κ} (xs : List A) → ((a : A) → P a → Q a) → All P xs → All Q xs
  All-map [] f h = tt
  All-map (x ∷ xs) f h = (f x h.0, All-map xs f h.1)
