-- ===== src/Discovery/Bounds.antt =====
-- The batches of the DNSX stage.
use aicybersec.Common.{
  ◌≡◌, refl, ap, ◌∙◌, ◌≤◌, ◌<◌, List, [], ◌∷◌, ◌++◌, length, length-append, All, Bool-cases, inl,
  inr, ◌==◌, arith,
}
use mathlib.Core.List.{append_assoc}
use aicybersec.Common.Text.{Text}
use aicybersec.Discovery.Stages.{batches_from, batches}

abbrev pub concat : List (List Text) → List Text
concat [] = []
concat (b ∷ bs) = b ++ concat bs

abbrev pub IsBatch : List Text → Type 0
IsBatch b = (0 < length b) × (length b ≤ 20)

batches_from_lem :
    (current hosts : List Text)
    → length current ≤ 20
    → (concat (batches_from current hosts) ≡ current ++ hosts)
      × All IsBatch (batches_from current hosts)
unfolding batches_from
batches_from_lem [] [] h = (refl, tt)
batches_from_lem (c ∷ current) [] h = (refl, ((omega arith, h), tt))
batches_from_lem current (host ∷ hosts) h = elim (Bool-cases (length current == 20)) [
  | inl full ↦
      let (whole, all) = batches_from_lem (host ∷ []) hosts (omega arith) in
      let long : length current ≡ 20 = ground arith in
      rw full (ap (λ (xs : List Text). current ++ xs) whole, ((omega arith, h), all))
  | inr open' ↦
      let more : length (current ++ host ∷ []) ≤ 20 =
        let l = length-append current (host ∷ []) in
        let short : length current < 20 = ground arith in omega arith in
      let (whole, all) = batches_from_lem (current ++ host ∷ []) hosts more in
      rw open' (whole ∙ append_assoc current (host ∷ []) hosts, all)
]

-- The DNSX batches hold every eligible host once and in order, and each has between 1 and 20 hosts.
pub batches_lem :
    (hosts : List Text) → (concat (batches hosts) ≡ hosts) × All IsBatch (batches hosts)
batches_lem hosts = batches_from_lem [] hosts (omega arith)
