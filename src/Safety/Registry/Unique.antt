-- ===== src/Safety/Registry/Unique.antt =====
-- The registry holds each name once, and answers for exactly the tools that were registered.
use aicybersec.Common.{
  ◌≡◌, refl, ap, ◌⊎◌, inl, inr, true, false, some, [], ◌∷◌, ◌++◌, ok, err, value_error, IsIn,
  IsUnique, IsUnique-append_one, arith, Bool-cases, if◌then◌else◌, ◌||◌,
}
use aicybersec.Common.Text.{Text, text_eq, is_empty, elem}
use aicybersec.Common.Text.Laws.{text_eq_iff, text_eq_refl, not_IsIn}
use aicybersec.Safety.Tools.{Tool}
use aicybersec.Safety.Registry.{Registry, names_of, has, register, find, get}

names_of-append : (r : Registry) (t : Tool) → names_of (r ++ t ∷ []) ≡ names_of r ++ t.name ∷ []
names_of-append [] t = refl
names_of-append (u ∷ r) t = ap (λ ns. u.name ∷ ns) (names_of-append r t)

find-append :
    (r : Registry) (t : Tool) (name : Text)
    → has r t.name ≡ false
    → find (r ++ t ∷ []) name ≡ (if text_eq name t.name then some t else find r name)
unfolding find has elem
find-append [] t name h = refl
find-append (u ∷ r) t name h = ground (
  arith,
  find-append r t name,
  text_eq_iff name u.name,
  text_eq_iff name t.name,
  text_eq_iff t.name u.name,
)

-- Registration keeps the names unique. It raises exactly for an empty or a known name; otherwise the
-- new tool answers to its name, and every other name answers as before.
pub register-get :
    (r : Registry) (t : Tool) (name : Text)
    → IsUnique (names_of r)
    → ((is_empty t.name || has r t.name ≡ true) × (register r t ≡ err value_error))
      ⊎ ((s : Registry) × (register r t ≡ ok s)
          × IsUnique (names_of s)
          × (get s name ≡ (if text_eq name t.name then ok t else get r name)))
unfolding register get has
register-get r t name u = elim (Bool-cases (is_empty t.name || has r t.name)) [
  | inl refused ↦ inl (refused, rw refused)
  | inr free ↦
      let new : has r t.name ≡ false = ground arith in
      inr (
        r ++ t ∷ [],
        rw free,
        rw (names_of-append r t)
            (IsUnique-append_one (names_of r) t.name u (not_IsIn t.name (names_of r) new)),
        rw (find-append r t name new) (ground arith),
      )
]

pub IsIn-names_of : (r : Registry) (t : Tool) → IsIn t r → IsIn t.name (names_of r)
IsIn-names_of [] t h = absurd h
IsIn-names_of (u ∷ r) t (inl e) = inl (ap (λ (v : Tool). v.name) e)
IsIn-names_of (u ∷ r) t (inr h) = inr (IsIn-names_of r t h)

-- Where names are unique, a member is what its name finds.
pub find_of_IsIn :
    (r : Registry) (t : Tool) → IsUnique (names_of r) → IsIn t r → find r t.name ≡ some t
unfolding find
find_of_IsIn [] t u h = absurd h
find_of_IsIn (v ∷ r) t (out, u) (inl e) = rw (e, text_eq_refl v.name)
find_of_IsIn (v ∷ r) t (out, u) (inr h) = elim (Bool-cases (text_eq t.name v.name)) [
  | inl same ↦ absurd (out (rw ((text_eq_iff t.name v.name).0 same) at (IsIn-names_of r t h)))
  | inr other ↦ rw other (find_of_IsIn r t u h)
]
