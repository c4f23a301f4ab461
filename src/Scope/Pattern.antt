-- ===== src/Scope/Pattern.antt =====
-- The texts that the host name pattern of backend/services/scope_service.py matches.
use aicybersec.Common.{
  ℕ, ◌≡◌, ◌≢◌, ◌≤◌, refl, ap, ◌∙◌, ◌⊎◌, inl, inr, Bool, true, false, not, ◌&&◌, List, [], ◌∷◌, ◌++◌,
  length, leb, All, Bool-cases, ==_iff, arith,
}
use mathlib.Core.Path.{subst}
use aicybersec.Common.Text.{Text, is_empty, ends_with, drop_last}
use aicybersec.Common.Text.Laws.{append_of_ends_with}
use aicybersec.Scope.Names.{is_alnum, label_tail, is_label, all_labels, split_dots, hostname_re}

-- A digit or a letter.
abbrev pub IsAlnum : ℕ → Type 0
IsAlnum c = ((48 ≤ c) × (c ≤ 57)) ⊎ ((97 ≤ c) × (c ≤ 122)) ⊎ ((65 ≤ c) × (c ≤ 90))

-- A label: letters, digits and hyphens, at most 63, the first and the last no hyphen.
abbrev pub IsLabel : Text → Type 0
IsLabel t =
    All (λ c. IsAlnum c ⊎ (c ≡ b'-')) t
    × (length t ≤ 63)
    × ((c : ℕ) × (s : Text) × (t ≡ c ∷ s) × IsAlnum c)
    × ((s : Text) × (c : ℕ) × (t ≡ s ++ c ∷ []) × IsAlnum c)

-- At most 253 characters, whose parts between the dots are labels, and maybe a line feed after them.
abbrev pub IsHostName : Text → Type 0
IsHostName v =
    (t : Text) × ((v ≡ t) ⊎ (v ≡ t ++ 10 ∷ []))
    × (t ≢ [])
    × (length t ≤ 253)
    × All IsLabel (split_dots t)

is_alnum-IsAlnum : (c : ℕ) → is_alnum c ≡ true → IsAlnum c
is_alnum-IsAlnum c e = elim (Bool-cases (leb 48 c && leb c 57)) [
  | inl a ↦ inl (ground arith, ground arith)
  | inr a ↦ elim (Bool-cases (leb 97 c && leb c 122)) [
    | inl b ↦ inr (inl (ground arith, ground arith))
    | inr b ↦ inr (inr (ground arith, ground arith))
  ]
]

IsLast : Text → Type 0
IsLast t = (s : Text) × (c : ℕ) × (t ≡ s ++ c ∷ []) × IsAlnum c

-- What follows the first character of a label.
label_tail_lem :
    (d : ℕ) (s : Text)
    → IsAlnum d
    → label_tail s ≡ true
    → All (λ c. IsAlnum c ⊎ (c ≡ b'-')) s × IsLast (d ∷ s)
unfolding IsLast
label_tail_lem d [] a e = (tt, ([], d, refl, a))
label_tail_lem d (c ∷ []) a e = let b = is_alnum-IsAlnum c e in ((inl b, tt), (d ∷ [], c, refl, b))
label_tail_lem d (c ∷ f ∷ s) a e =
    let (all, (p, l, q, b)) = label_tail_lem d (f ∷ s) a (ground arith) in
    ((char, all), last p l q b)
  where
    char : IsAlnum c ⊎ (c ≡ b'-')
    char = elim (Bool-cases (is_alnum c)) [
      | inl x ↦ inl (is_alnum-IsAlnum c x)
      | inr x ↦ inr ((==_iff c b'-').0 (ground arith))
    ]

    last :
        (p : Text) (l : ℕ)
        → d ∷ f ∷ s ≡ p ++ l ∷ []
        → IsAlnum l
        → (t : Text) × (k : ℕ) × (d ∷ c ∷ f ∷ s ≡ t ++ k ∷ []) × IsAlnum k
    last [] l q b = cc
    last (x ∷ p) l q b =
        let rest : f ∷ s ≡ p ++ l ∷ [] = cc in (d ∷ c ∷ p, l, ap (λ (r : Text). d ∷ c ∷ r) rest, b)

is_label-IsLabel : (t : Text) → is_label t ≡ true → IsLabel t
unfolding IsLast
is_label-IsLabel [] e = cc
is_label-IsLabel (c ∷ s) e =
    let a = is_alnum-IsAlnum c (ground arith) in
    let (all, last) = label_tail_lem c s a (ground arith) in
    let short : length s ≤ 62 = ground arith in ((inl a, all), omega arith, (c, s, refl, a), last)

all_labels-All : (ts : List Text) → all_labels ts ≡ true → All IsLabel ts
all_labels-All [] e = tt
all_labels-All (t ∷ ts) e = (is_label-IsLabel t (ground arith), all_labels-All ts (ground arith))

drop_last-append : (p : Text) (c : ℕ) → drop_last (p ++ c ∷ []) ≡ p
unfolding drop_last
drop_last-append [] c = refl
drop_last-append (d ∷ []) c = refl
drop_last-append (d ∷ e ∷ p) c = ap (λ (s : Text). d ∷ s) (drop_last-append (e ∷ p) c)

-- The test of the pattern without a line feed at the end.
is_name : Text → Bool
is_name t = not (is_empty t) && leb (length t) 253 && all_labels (split_dots t)

is_name_lem :
    (t : Text) → is_name t ≡ true → (t ≢ []) × (length t ≤ 253) × All IsLabel (split_dots t)
unfolding is_name
is_name_lem t e = (
  (λ q.
      let same : is_empty t ≡ true = rw q refl in let b : is_empty t ≡ false = ground arith in cc),
  ground arith,
  all_labels-All (split_dots t) (ground arith),
)

pub hostname_re-IsHostName : (v : Text) → hostname_re v ≡ true → IsHostName v
unfolding hostname_re is_name
hostname_re-IsHostName v e = elim (Bool-cases (is_name v)) [
  | inl h ↦ let (f, l, a) = is_name_lem v h in (v, inl refl, f, l, a)
  | inr h ↦
      let feed : ends_with v (10 ∷ []) ≡ true = ground arith in
      let named : is_name (drop_last v) ≡ true = ground arith in
      let (p, q) = append_of_ends_with v (10 ∷ []) feed in
      let same : drop_last v ≡ p = ap drop_last q ∙ drop_last-append p 10 in
      let (f, l, a) = is_name_lem p (subst (λ (t : Text). is_name t ≡ true) same named) in
      (p, inr q, f, l, a)
]
