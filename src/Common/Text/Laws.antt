-- ===== src/Common/Text/Laws.antt =====
-- Laws of the text operations: equality and membership decide, `lower` is idempotent, and a suffix
-- is what `ends_with` finds.
use Prim.Native.Nat.{ℕ}
use mathlib.Core.Path.{◌≡◌, refl, ap}
use mathlib.Core.Logic.{◌↔◌, inl, inr}
use mathlib.Core.Bool.{true, false}
use mathlib.Core.List.{List, [], ◌∷◌, ◌++◌}
use native.Mathlib.Omega.{arith}
use aicybersec.Common.Tests.{Bool-cases}
use aicybersec.Common.Lists.{IsIn}
use aicybersec.Common.Text.{Text, text_eq, elem, is_upper, lower_code, lower, ends_with}

pub text_eq_refl : (s : Text) → text_eq s s ≡ true
unfolding text_eq
text_eq_refl [] = refl
text_eq_refl (c ∷ s) = ground (arith, text_eq_refl s)

pub eq_of_text_eq : (s t : Text) → text_eq s t ≡ true → s ≡ t
unfolding text_eq
eq_of_text_eq [] [] h = refl
eq_of_text_eq [] (d ∷ t) h = cc
eq_of_text_eq (c ∷ s) [] h = cc
eq_of_text_eq (c ∷ s) (d ∷ t) h = ground (arith, eq_of_text_eq s t)

pub text_eq_iff : (s t : Text) → (text_eq s t ≡ true) ↔ (s ≡ t)
text_eq_iff s t = (eq_of_text_eq s t, λ e. rw e (text_eq_refl t))

elem-IsIn : (x : Text) (xs : List Text) → elem x xs ≡ true → IsIn x xs
unfolding elem
elem-IsIn x [] h = cc
elem-IsIn x (y ∷ ys) h = elim (Bool-cases (text_eq x y)) [
  | inl e ↦ inl (eq_of_text_eq x y e)
  | inr e ↦ inr (elem-IsIn x ys (rw e at h))
]

elem_of_IsIn : (x : Text) (xs : List Text) → IsIn x xs → elem x xs ≡ true
unfolding elem
elem_of_IsIn x [] h = absurd h
elem_of_IsIn x (y ∷ ys) (inl e) = rw (e, text_eq_refl y)
elem_of_IsIn x (y ∷ ys) (inr h) = ground (arith, elem_of_IsIn x ys h)

pub elem_iff : (x : Text) (xs : List Text) → (elem x xs ≡ true) ↔ IsIn x xs
elem_iff x xs = (elem-IsIn x xs, elem_of_IsIn x xs)

pub not_IsIn : (x : Text) (xs : List Text) → elem x xs ≡ false → ¬ IsIn x xs
not_IsIn x xs h m = cc (elem_of_IsIn x xs m)

pub lower_code_idem : (c : ℕ) → lower_code (lower_code c) ≡ lower_code c
unfolding lower_code
lower_code_idem c = ground arith

pub lower_idem : (s : Text) → lower (lower s) ≡ lower s
unfolding lower
lower_idem [] = refl
lower_idem (c ∷ s) = cc (lower_code_idem c, lower_idem s)

lower_code_fixed : (c : ℕ) → is_upper c ≡ false → lower_code c ≡ c
unfolding lower_code
lower_code_fixed c h = rw h

pub ends_with-append : (p t : Text) → ends_with (p ++ t) t ≡ true
unfolding ends_with
ends_with-append [] [] = text_eq_refl []
ends_with-append [] (c ∷ t) = rw (text_eq_refl (c ∷ t))
ends_with-append (c ∷ p) t = ground (arith, ends_with-append p t)

-- A suffix is found exactly where the text is some prefix followed by it.
pub append_of_ends_with : (s t : Text) → ends_with s t ≡ true → (p : Text) × (s ≡ p ++ t)
unfolding ends_with
append_of_ends_with [] t h = ([], eq_of_text_eq [] t h)
append_of_ends_with (c ∷ s) t h = elim (Bool-cases (text_eq (c ∷ s) t)) [
  | inl e ↦ ([], eq_of_text_eq (c ∷ s) t e)
  | inr e ↦ let (p, q) = append_of_ends_with s t (rw e at h) in (c ∷ p, ap (λ r. c ∷ r) q)
]
