-- ===== src/Common/Lists.antt =====
-- Lists measured by native numbers, and predicates on lists that compute to tuples.
use Prim.Native.Nat.{ℕ, zero, suc, ◌+◌, min}
use mathlib.Core.Path.{◌≡◌, refl, sym}
use mathlib.Core.Logic.{◌⊎◌, inl, inr}
use mathlib.Core.List.{List, [], ◌∷◌, ◌++◌}
use native.Mathlib.Omega.{arith}

module _ {ℓ} {A : Type ℓ} where
  abbrev pub length : List A → ℕ
  length [] = 0
  length (x ∷ xs) = suc (length xs)

  abbrev pub take : ℕ → List A → List A
  take zero xs = []
  take (suc n) [] = []
  take (suc n) (x ∷ xs) = x ∷ take n xs

  pub length-append : (xs ys : List A) → length (xs ++ ys) ≡ length xs + length ys
  length-append [] ys = omega arith
  length-append (x ∷ xs) ys = omega (arith, length-append xs ys)

  pub length-take : (n : ℕ) (xs : List A) → length (take n xs) ≡ min n (length xs)
  length-take zero xs = omega arith
  length-take (suc n) [] = omega arith
  length-take (suc n) (x ∷ xs) = omega (arith, length-take n xs)

module _ {A : Type 0} where
  -- Every member satisfies `P`.
  abbrev pub All : (A → Type 0) → List A → Type 0
  All P [] = Unit
  All P (x ∷ xs) = P x × All P xs

  -- `x` is a member of the list.
  abbrev pub IsIn : A → List A → Type 0
  IsIn x [] = ⊥
  IsIn x (y ∷ ys) = (x ≡ y) ⊎ IsIn x ys

  -- No member occurs twice.
  abbrev pub IsUnique : List A → Type 0
  IsUnique [] = Unit
  IsUnique (x ∷ xs) = ¬ IsIn x xs × IsUnique xs

  pub IsIn-append_left : (x : A) (xs ys : List A) → IsIn x xs → IsIn x (xs ++ ys)
  IsIn-append_left x [] ys h = absurd h
  IsIn-append_left x (z ∷ xs) ys (inl e) = inl e
  IsIn-append_left x (z ∷ xs) ys (inr h) = inr (IsIn-append_left x xs ys h)

  pub IsIn-append_right : (x : A) (xs ys : List A) → IsIn x ys → IsIn x (xs ++ ys)
  IsIn-append_right x [] ys h = h
  IsIn-append_right x (z ∷ xs) ys h = inr (IsIn-append_right x xs ys h)

  pub IsIn-append : (x : A) (xs ys : List A) → IsIn x (xs ++ ys) → IsIn x xs ⊎ IsIn x ys
  IsIn-append x [] ys h = inr h
  IsIn-append x (z ∷ xs) ys (inl e) = inl (inl e)
  IsIn-append x (z ∷ xs) ys (inr h) = elim (IsIn-append x xs ys h) [
    | inl l ↦ inl (inr l)
    | inr r ↦ inr r
  ]

  pub All-append : (P : A → Type 0) (xs ys : List A) → All P xs → All P ys → All P (xs ++ ys)
  All-append P [] ys h k = k
  All-append P (x ∷ xs) ys (p, h) k = (p, All-append P xs ys h k)

  pub All-IsIn : (P : A → Type 0) (x : A) (xs : List A) → All P xs → IsIn x xs → P x
  All-IsIn P x [] h m = absurd m
  All-IsIn P x (y ∷ ys) (p, h) (inl e) = rw e p
  All-IsIn P x (y ∷ ys) (p, h) (inr m) = All-IsIn P x ys h m

  pub IsIn-All : (P : A → Type 0) (xs : List A) → ((x : A) → IsIn x xs → P x) → All P xs
  IsIn-All P [] f = tt
  IsIn-All P (x ∷ xs) f = (f x (inl refl), IsIn-All P xs (λ y m. f y (inr m)))

  pub IsUnique-append_one :
      (xs : List A) (x : A) → IsUnique xs → ¬ IsIn x xs → IsUnique (xs ++ x ∷ [])
  IsUnique-append_one [] x u n = ((λ h. h), tt)
  IsUnique-append_one (y ∷ ys) x (out, u) n = (
    λ h. elim (IsIn-append y ys (x ∷ []) h) [
      | inl m ↦ out m
      | inr (inl e) ↦ n (inl (sym e))
      | inr (inr b) ↦ b
    ],
    IsUnique-append_one ys x u (λ m. n (inr m)),
  )
