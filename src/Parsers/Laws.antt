-- ===== src/Parsers/Laws.antt =====
-- The parsers against a reference: the first usable lines, and a count of all the others.
use aicybersec.Common.{
  ℕ, zero, suc, ◌+◌, ◌≤◌, ◌≡◌, refl, sym, ap, ◌∙◌, inl, inr, true, Option, none, some, List, [],
  ◌∷◌, ◌++◌, take, length, length-append, Bool-cases, if◌then◌else◌, leb, arith,
}
use aicybersec.Common.Text.{Text, is_empty, strip}
use aicybersec.Persistence.Json.{Json}
use aicybersec.Parsers.{
  splitlines, normalize_subfinder, normalize_dnsx, normalize_line, keep_line, parse_lines,
  parse_subfinder_jsonl, parse_dnsx_jsonl,
}

-- The lines that are not blank.
unfoldable pub not_blank_lines : List Text → List Text
not_blank_lines [] = []
not_blank_lines (l ∷ ls) =
    let rest = not_blank_lines ls in if is_empty (strip l) then rest else l ∷ rest

abbrev pub cons_some {ℓ} : {A : Type ℓ} → Option A → List A → List A
cons_some none xs = xs
cons_some (some a) xs = a ∷ xs

module _ {A : Type 0} (loads : Text → Option Json) (normalize : Json → Option A) where
  -- The records of the usable lines, all of them.
  unfoldable pub usable : List Text → List A
  usable [] = []
  usable (l ∷ ls) = cons_some (normalize_line normalize (loads l)) (usable ls)

  -- The records are the first ones of the usable lines, and every other line is counted.
  abbrev pub IsParsed : ℕ → List A × ℕ → List Text → Type 0
  IsParsed max r lines =
      (r.0 ≡ take max (usable (not_blank_lines lines)))
      × (length r.0 + r.1 ≡ length (not_blank_lines lines))

  take-append_some :
      (max : ℕ) (xs : List A) (a : A) (ys : List A)
      → leb max (length xs) ≡ true
      → take max (xs ++ a ∷ ys) ≡ take max (xs ++ ys)
  take-append_some zero xs a ys h = refl
  take-append_some (suc n) [] a ys h = absurd (ground arith)
  take-append_some (suc n) (x ∷ xs) a ys h =
      ap (λ r. x ∷ r) (take-append_some n xs a ys (ground arith))

  append_one : (xs : List A) (a : A) (ys : List A) → (xs ++ a ∷ []) ++ ys ≡ xs ++ a ∷ ys
  append_one [] a ys = refl
  append_one (x ∷ xs) a ys = ap (λ r. x ∷ r) (append_one xs a ys)

  take-all : (max : ℕ) (xs : List A) → length xs ≤ max → take max (xs ++ []) ≡ xs
  take-all zero [] h = refl
  take-all zero (x ∷ xs) h = absurd (omega arith)
  take-all (suc n) [] h = refl
  take-all (suc n) (x ∷ xs) h = ap (λ r. x ∷ r) (take-all n xs (omega arith))

  -- What one line that is not blank adds.
  abbrev IsKept : ℕ → List A × ℕ → List A × ℕ → Option A → Type 0
  IsKept max r next o =
      (length next.0 ≤ max)
      × (length next.0 + next.1 ≡ suc (length r.0 + r.1))
      × ((ys : List A) → take max (next.0 ++ ys) ≡ take max (r.0 ++ cons_some o ys))

  keep_line-IsKept :
      (max : ℕ) (r : List A × ℕ) (o : Option A)
      → length r.0 ≤ max
      → IsKept max r (keep_line max o r) o
  keep_line-IsKept max r none h = (h, omega arith, λ ys. refl)
  keep_line-IsKept max r (some a) h = elim (Bool-cases (leb max (length r.0))) [
    | inl e ↦ rw e (h, omega arith, λ ys. sym (take-append_some max r.0 a ys e))
    | inr e ↦
        let n = length-append r.0 (a ∷ []) in
        let short : suc (length r.0) ≤ max = ground arith in
        rw e (omega arith, omega arith, λ ys. ap (take max) (append_one r.0 a ys))
  ]

  parse_lines_lem :
      (max : ℕ) (r : List A × ℕ) (lines : List Text)
      → length r.0 ≤ max
      → ((parse_lines loads normalize max r lines).0
          ≡ take max (r.0 ++ usable (not_blank_lines lines)))
        × (length (parse_lines loads normalize max r lines).0
              + (parse_lines loads normalize max r lines).1
            ≡ (length r.0 + r.1) + length (not_blank_lines lines))
  unfolding parse_lines not_blank_lines usable
  parse_lines_lem max r [] h = (sym (take-all max r.0 h), omega arith)
  parse_lines_lem max r (l ∷ ls) h = elim (Bool-cases (is_empty (strip l))) [
    | inl e ↦ rw (e, parse_lines) (parse_lines_lem max r ls h)
    | inr e ↦
        let o = normalize_line normalize (loads l) in
        let (b, n, t) = keep_line-IsKept max r o h in
        let (p, q) = parse_lines_lem max (keep_line max o r) ls b in
        rw (e, parse_lines) (p ∙ t (usable (not_blank_lines ls)), omega arith)
  ]

  pub parse_lines-IsParsed :
      (max : ℕ) (lines : List Text)
      → IsParsed max (parse_lines loads normalize max ([], 0) lines) lines
  parse_lines-IsParsed max lines =
      let (p, q) = parse_lines_lem max ([], 0) lines (omega arith) in (p, omega arith)

-- Both parsers return the records of the first usable lines, 500 for Subfinder and 100 for DNSX, and
-- the records and the skipped lines make up the lines that are not blank.
pub parse_jsonl-IsParsed :
    (loads : Text → Option Json) (s : Text)
    → IsParsed loads normalize_subfinder 500 (parse_subfinder_jsonl loads s) (splitlines s)
      × IsParsed loads normalize_dnsx 100 (parse_dnsx_jsonl loads s) (splitlines s)
unfolding parse_subfinder_jsonl parse_dnsx_jsonl
parse_jsonl-IsParsed loads s = (
  parse_lines-IsParsed loads normalize_subfinder 500 (splitlines s),
  parse_lines-IsParsed loads normalize_dnsx 100 (splitlines s),
)
