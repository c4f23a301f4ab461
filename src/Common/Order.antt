-- ===== src/Common/Order.antt =====
-- The order of texts, and Python's `sorted` with a text as the key.
use Prim.Native.Nat.{suc}
use mathlib.Core.Path.{◌≡◌, refl, sym}
use mathlib.Core.Logic.{◌⊎◌, inl, inr}
use mathlib.Core.Bool.{Bool, true, false}
use mathlib.Core.List.{List, [], ◌∷◌}
use native.Mathlib.Omega.{arith}
use aicybersec.Common.Tests.{◌==◌, ltb, if◌then◌else◌, Bool-cases}
use aicybersec.Common.Lists.{length, All, IsIn, IsUnique}
use aicybersec.Common.Text.{Text}

-- `s <= t`
unfoldable pub text_leb : Text → Text → Bool
text_leb [] t = true
text_leb (c ∷ s) [] = false
text_leb (c ∷ s) (d ∷ t) = let rest = text_leb s t in if c == d then rest else ltb c d

pub text_leb_total : (s t : Text) → text_leb s t ≡ false → text_leb t s ≡ true
unfolding text_leb
text_leb_total [] t h = cc
text_leb_total (c ∷ s) [] h = refl
text_leb_total (c ∷ s) (d ∷ t) h = ground (arith, text_leb_total s t)

pub text_leb_trans :
    (s t u : Text) → text_leb s t ≡ true → text_leb t u ≡ true → text_leb s u ≡ true
unfolding text_leb
text_leb_trans [] t u h k = refl
text_leb_trans (c ∷ s) [] u h k = cc
text_leb_trans (c ∷ s) (d ∷ t) [] h k = cc
text_leb_trans (c ∷ s) (d ∷ t) (e ∷ u) h k = ground (arith, text_leb_trans s t u)

module _ {A : Type 0} (key : A → Text) where
  unfoldable pub insert_by : A → List A → List A
  insert_by x [] = x ∷ []
  insert_by x (y ∷ ys) =
      let rest = insert_by x ys in if text_leb (key x) (key y) then x ∷ y ∷ ys else y ∷ rest

  -- `sorted(xs, key=key)`
  unfoldable pub sort_by : List A → List A
  sort_by [] = []
  sort_by (x ∷ xs) = insert_by x (sort_by xs)

  -- Each member is at most the next.
  abbrev pub IsOrdered : List A → Type 0
  IsOrdered [] = Unit
  IsOrdered (x ∷ []) = Unit
  IsOrdered (x ∷ y ∷ ys) = (text_leb (key x) (key y) ≡ true) × IsOrdered (y ∷ ys)

  pub insert_by-IsOrdered : (x : A) (ys : List A) → IsOrdered ys → IsOrdered (insert_by x ys)
  unfolding insert_by
  insert_by-IsOrdered x [] h = tt
  insert_by-IsOrdered x (y ∷ ys) h = elim (Bool-cases (text_leb (key x) (key y))) [
    | inl here ↦ rw here (here, h)
    | inr later ↦
        rw later
          (go ys h (text_leb_total (key x) (key y) later) (insert_by-IsOrdered x ys (tail ys h)))
  ]
    where
      tail : (zs : List A) → IsOrdered (y ∷ zs) → IsOrdered zs
      tail [] h = tt
      tail (z ∷ zs) (yz, h) = h

      go :
          (zs : List A)
          → IsOrdered (y ∷ zs)
          → text_leb (key y) (key x) ≡ true
          → IsOrdered (insert_by x zs)
          → IsOrdered (y ∷ insert_by x zs)
      go [] h l ih = (l, tt)
      go (z ∷ zs) (yz, h) l ih = elim (Bool-cases (text_leb (key x) (key z))) [
        | inl here ↦ rw here (l, (here, h))
        | inr later ↦ rw later (yz, rw later at ih)
      ]

  pub sort_by-IsOrdered : (xs : List A) → IsOrdered (sort_by xs)
  unfolding sort_by
  sort_by-IsOrdered [] = tt
  sort_by-IsOrdered (x ∷ xs) = insert_by-IsOrdered x (sort_by xs) (sort_by-IsOrdered xs)

  -- A list in order is left as it is.
  pub sort_by_ordered : (xs : List A) → IsOrdered xs → sort_by xs ≡ xs
  unfolding sort_by insert_by
  sort_by_ordered [] h = refl
  sort_by_ordered (x ∷ []) h = refl
  sort_by_ordered (x ∷ y ∷ ys) (l, h) = rw (sort_by_ordered (y ∷ ys) h, l) refl

  pub IsIn-insert_by : (z x : A) (ys : List A) → IsIn z (insert_by x ys) → (z ≡ x) ⊎ IsIn z ys
  unfolding insert_by
  IsIn-insert_by z x [] m = m
  IsIn-insert_by z x (y ∷ ys) m = elim (Bool-cases (text_leb (key x) (key y))) [
    | inl here ↦ let n : (z ≡ x) ⊎ ((z ≡ y) ⊎ IsIn z ys) = rw here at m in n
    | inr later ↦
        let n : (z ≡ y) ⊎ IsIn z (insert_by x ys) = rw later at m in
        elim n [
          | inl e ↦ inr (inl e)
          | inr k ↦ elim (IsIn-insert_by z x ys k) [ inl e ↦ inl e | inr j ↦ inr (inr j) ]
        ]
  ]

  pub IsIn-sort_by : (z : A) (xs : List A) → IsIn z (sort_by xs) → IsIn z xs
  unfolding sort_by
  IsIn-sort_by z [] m = m
  IsIn-sort_by z (x ∷ xs) m = elim (IsIn-insert_by z x (sort_by xs) m) [
    | inl e ↦ inl e
    | inr k ↦ inr (IsIn-sort_by z xs k)
  ]

  pub insert_by-IsIn : (z x : A) (ys : List A) → (z ≡ x) ⊎ IsIn z ys → IsIn z (insert_by x ys)
  unfolding insert_by
  insert_by-IsIn z x [] m = m
  insert_by-IsIn z x (y ∷ ys) m = elim (Bool-cases (text_leb (key x) (key y))) [
    | inl here ↦ rw here m
    | inr later ↦ rw later (elim m [
      | inl e ↦ inr (insert_by-IsIn z x ys (inl e))
      | inr (inl e) ↦ inl e
      | inr (inr k) ↦ inr (insert_by-IsIn z x ys (inr k))
    ])
  ]

  pub sort_by-IsIn : (z : A) (xs : List A) → IsIn z xs → IsIn z (sort_by xs)
  unfolding sort_by
  sort_by-IsIn z [] m = m
  sort_by-IsIn z (x ∷ xs) m =
      insert_by-IsIn z x (sort_by xs) (elim m [ inl e ↦ inl e | inr k ↦ inr (sort_by-IsIn z xs k) ])

  pub length-insert_by : (x : A) (ys : List A) → length (insert_by x ys) ≡ suc (length ys)
  unfolding insert_by
  length-insert_by x [] = refl
  length-insert_by x (y ∷ ys) = ground (arith, length-insert_by x ys)

  pub length-sort_by : (xs : List A) → length (sort_by xs) ≡ length xs
  unfolding sort_by
  length-sort_by [] = refl
  length-sort_by (x ∷ xs) = ground (arith, length-insert_by x (sort_by xs), length-sort_by xs)

  -- A predicate of all members, and uniqueness, survive sorting.
  pub insert_by-IsUnique :
      (x : A) (ys : List A) → ¬ IsIn x ys → IsUnique ys → IsUnique (insert_by x ys)
  unfolding insert_by
  insert_by-IsUnique x [] n u = (n, tt)
  insert_by-IsUnique x (y ∷ ys) n (out, u) = elim (Bool-cases (text_leb (key x) (key y))) [
    | inl here ↦ rw here (n, (out, u))
    | inr later ↦ rw later (
      λ m. elim (IsIn-insert_by y x ys m) [ inl e ↦ n (inl (sym e)) | inr k ↦ out k ],
      insert_by-IsUnique x ys (λ m. n (inr m)) u,
    )
  ]

  pub sort_by-IsUnique : (xs : List A) → IsUnique xs → IsUnique (sort_by xs)
  unfolding sort_by
  sort_by-IsUnique [] u = tt
  sort_by-IsUnique (x ∷ xs) (out, u) =
      insert_by-IsUnique x (sort_by xs) (λ m. out (IsIn-sort_by x xs m)) (sort_by-IsUnique xs u)

  pub insert_by-All :
      (P : A → Type 0) (x : A) (ys : List A) → P x → All P ys → All P (insert_by x ys)
  unfolding insert_by
  insert_by-All P x [] p h = (p, tt)
  insert_by-All P x (y ∷ ys) p (q, h) = elim (Bool-cases (text_leb (key x) (key y))) [
    | inl here ↦ rw here (p, (q, h))
    | inr later ↦ rw later (q, insert_by-All P x ys p h)
  ]

  pub sort_by-All : (P : A → Type 0) (xs : List A) → All P xs → All P (sort_by xs)
  unfolding sort_by
  sort_by-All P [] h = tt
  sort_by-All P (x ∷ xs) (p, h) = insert_by-All P x (sort_by xs) p (sort_by-All P xs h)

  pub IsOrdered-tail : (x : A) (ys : List A) → IsOrdered (x ∷ ys) → IsOrdered ys
  IsOrdered-tail x [] o = tt
  IsOrdered-tail x (y ∷ ys) o = o.1

  -- In an ordered list the first member is at most each of the others.
  pub IsOrdered-All :
      (x : A) (ys : List A) → IsOrdered (x ∷ ys) → All (λ y. text_leb (key x) (key y) ≡ true) ys
  IsOrdered-All x ys o = at_most x ys (key x) (λ y h. h) o
    where
      at_most :
          (x : A) (ys : List A) (t : Text)
          → ((y : A) → text_leb (key x) (key y) ≡ true → text_leb t (key y) ≡ true)
          → IsOrdered (x ∷ ys)
          → All (λ y. text_leb t (key y) ≡ true) ys
      at_most x [] t f o = tt
      at_most x (y ∷ ys) t f o =
          (f y o.0, at_most y ys t (λ z h. text_leb_trans t (key y) (key z) (f y o.0) h) o.1)

  pub All-IsOrdered :
      (x : A) (ys : List A)
      → All (λ y. text_leb (key x) (key y) ≡ true) ys
      → IsOrdered ys
      → IsOrdered (x ∷ ys)
  All-IsOrdered x [] h o = tt
  All-IsOrdered x (y ∷ ys) h o = (h.0, o)
