-- ===== src/Live/Canonical/Hosts.antt =====
-- What a host name that `parse_origin` takes is made of: the text is followed through each stage of
-- the URL parser and the host name's syntax.
use aicybersec.Common.{some_inv, All-append, length}
use mathlib.Core.Path.{subst}
use aicybersec.Common.Text.{ends_with, text_eq}
use aicybersec.Scope.Names.{hostname_re}
use aicybersec.Common.{
  ℕ, ◌≡◌, refl, Bool, true, false, ◌&&◌, ◌||◌, some, List, [], ◌∷◌, ◌++◌, leb, ◌==◌, All, arith,
  ◌≢◌, inl, inr, Bool-cases, if◌then◌else◌,
}
use aicybersec.Common.Text.{Text, lower_code, lower, has, before, after, after_last}
use aicybersec.Safety.Url.{
  remove_breaks, netloc_end, netloc_of, drop_scheme, starts_alpha, host_part, host_lower,
  all_scheme,
}
use aicybersec.Scope.Names.{is_alnum, is_label, label_tail, all_labels, push, split_dots}

-- The characters of a host name.
abbrev pub name_char : ℕ → Bool
name_char c = is_alnum c || c == b'-' || c == b'.'

abbrev pub AllName : Text → Type 0
AllName = All (λ c. name_char c ≡ true)

label_tail-AllName : (s : Text) → label_tail s ≡ true → AllName s
label_tail-AllName [] h = tt
label_tail-AllName (c ∷ []) h = (ground arith, tt)
label_tail-AllName (c ∷ d ∷ s) h = (ground arith, label_tail-AllName (d ∷ s) (ground arith))

is_label-AllName : (s : Text) → is_label s ≡ true → AllName s
is_label-AllName [] h = tt
is_label-AllName (c ∷ s) h = (ground arith, label_tail-AllName s (ground arith))

all_labels-All : (ls : List Text) → all_labels ls ≡ true → All AllName ls
all_labels-All [] h = tt
all_labels-All (l ∷ ls) h = (is_label-AllName l (ground arith), all_labels-All ls (ground arith))

push-All :
    (c : ℕ) (ls : List Text) → All AllName (push c ls) → (name_char c ≡ true) × All AllName ls
push-All c [] h = (h.0.0, tt)
push-All c (t ∷ ts) h = (h.0.0, (h.0.1, h.1))

cut-All :
    (c : ℕ) (b : Bool) (ls : List Text)
    → (b ≡ true → name_char c ≡ true)
    → All AllName (if b then [] ∷ ls else push c ls)
    → (name_char c ≡ true) × All AllName ls
cut-All c true ls f h = (f refl, h.1)
cut-All c false ls f h = push-All c ls h

split_dots-AllName : (s : Text) → All AllName (split_dots s) → AllName s
unfolding split_dots
split_dots-AllName [] h = tt
split_dots-AllName (c ∷ s) h =
    let parts = cut-All c (c == b'.') (split_dots s) (λ e. ground arith) h in
    (parts.0, split_dots-AllName s parts.1)

pub labels-AllName : (s : Text) → all_labels (split_dots s) ≡ true → AllName s
labels-AllName s h = split_dots-AllName s (all_labels-All (split_dots s) h)

-- A text without a line feed, and the parts of it that the parser takes.
abbrev pub OneLine : Text → Type 0
OneLine = All (λ c. (c == 10) ≡ false)

remove_breaks-OneLine : (s : Text) → OneLine (remove_breaks s)
unfolding remove_breaks
remove_breaks-OneLine [] = tt
remove_breaks-OneLine (c ∷ s) = elim (Bool-cases (c == 9 || c == 10 || c == 13)) [
  | inl e ↦ rw e (remove_breaks-OneLine s)
  | inr e ↦ rw e (ground arith, remove_breaks-OneLine s)
]

module _ (P : ℕ → Type 0) where
  before-All : (c : ℕ) (s : Text) → All P s → All P (before c s)
  unfolding before
  before-All c [] h = tt
  before-All c (d ∷ s) h = elim (Bool-cases (c == d)) [
    | inl e ↦ rw e tt
    | inr e ↦ rw e (h.0, before-All c s h.1)
  ]

  after-All : (c : ℕ) (s : Text) → All P s → All P (after c s)
  unfolding after
  after-All c [] h = tt
  after-All c (d ∷ s) h = elim (Bool-cases (c == d)) [
    | inl e ↦ rw e h.1
    | inr e ↦ rw e (after-All c s h.1)
  ]

  after_last-All : (c : ℕ) (s : Text) → All P s → All P (after_last c s)
  unfolding after_last has
  after_last-All c [] h = tt
  after_last-All c (d ∷ s) h = elim (Bool-cases (has c s)) [
    | inl e ↦ rw e (after_last-All c s h.1)
    | inr e ↦ elim (Bool-cases (c == d)) [ inl f ↦ rw (e, f) h.1 | inr f ↦ rw (e, f) h ]
  ]

  netloc_end-All : (s : Text) → All P s → All P (netloc_end s)
  unfolding netloc_end
  netloc_end-All [] h = tt
  netloc_end-All (c ∷ s) h = elim (Bool-cases (c == b'/' || c == b'?' || c == b'#')) [
    | inl e ↦ rw e tt
    | inr e ↦ rw e (h.0, netloc_end-All s h.1)
  ]

  netloc_of-All : (s : Text) → All P s → All P (netloc_of s)
  unfolding netloc_of
  netloc_of-All [] h = tt
  netloc_of-All (c ∷ []) h = tt
  netloc_of-All (c ∷ d ∷ s) h = elim (Bool-cases (c == b'/' && d == b'/')) [
    | inl e ↦ rw e (netloc_end-All s h.1.1)
    | inr e ↦ rw e tt
  ]

  drop_scheme-All : (s : Text) → All P s → All P (drop_scheme s)
  unfolding drop_scheme
  drop_scheme-All s h =
      elim (Bool-cases (has b':' s && starts_alpha s && all_scheme (before b':' s))) [
        | inl e ↦ rw e (after-All b':' s h)
        | inr e ↦ rw e h
      ]

  host_part-All : (s : Text) → All P s → All P (host_part s)
  unfolding host_part
  host_part-All s h =
      let info = after_last-All b'@' s h in
      elim (Bool-cases (has b'[' (after_last b'@' s))) [
        | inl e ↦ rw e (before-All b']' _ (after-All b'[' _ info))
        | inr e ↦ rw e (before-All b':' _ info)
      ]

lower_code_line : (c : ℕ) → (c == 10) ≡ false → (lower_code c == 10) ≡ false
unfolding lower_code
lower_code_line c h = ground arith

pub lower-OneLine : (s : Text) → OneLine s → OneLine (lower s)
unfolding lower
lower-OneLine [] h = tt
lower-OneLine (c ∷ s) h = (lower_code_line c h.0, lower-OneLine s h.1)

last_line : (s : Text) → OneLine s → ends_with s (10 ∷ []) ≡ false
unfolding ends_with text_eq
last_line [] h = refl
last_line (c ∷ []) h = rw h.0 refl
last_line (c ∷ d ∷ s) h = rw h.0 (last_line (d ∷ s) h.1)

left_of : (a b c : Bool) → b ≡ false → (a || (b && c)) ≡ true → a ≡ true
left_of a b c e h = ground arith

-- A host name on one line consists of letters, digits, dashes and dots, and has a first character.
pub hostname_re-AllName : (s : Text) → OneLine s → hostname_re s ≡ true → AllName s × (s ≢ [])
unfolding hostname_re
hostname_re-AllName [] o h = cc
hostname_re-AllName (c ∷ s) o h =
    let full =
      left_of (leb (length (c ∷ s)) 253 && all_labels (split_dots (c ∷ s))) _ _
        (last_line (c ∷ s) o) h in
    (labels-AllName (c ∷ s) (ground arith), λ e. cc)

host_lower-OneLine : (s : Text) → OneLine s → (h : Text) → host_lower s ≡ some h → OneLine h
unfolding host_lower
host_lower-OneLine [] o h e = cc
host_lower-OneLine (c ∷ s) o h e = subst OneLine (some_inv _ _ e) line
  where
    line : OneLine (
        if has b'%' (c ∷ s)
        then lower (before b'%' (c ∷ s)) ++ b'%' ∷ after b'%' (c ∷ s)
        else lower (c ∷ s))
    line = elim (Bool-cases (has b'%' (c ∷ s))) [
      | inl f ↦ rw f (
          All-append (λ c. (c == 10) ≡ false) (lower (before b'%' (c ∷ s))) _
            (lower-OneLine _ (before-All (λ c. (c == 10) ≡ false) b'%' (c ∷ s) o))
            (refl, after-All (λ c. (c == 10) ≡ false) b'%' (c ∷ s) o))
      | inr f ↦ rw f (lower-OneLine (c ∷ s) o)
    ]

-- The host that the parser finds in a cleaned text is on one line.
pub found-OneLine :
    (s h : Text)
    → host_lower (host_part (netloc_of (drop_scheme (remove_breaks s)))) ≡ some h
    → OneLine h
found-OneLine s h e =
    let clean = remove_breaks-OneLine s in
    host_lower-OneLine _
      (host_part-All (λ c. (c == 10) ≡ false) _
        (netloc_of-All (λ c. (c == 10) ≡ false) _
          (drop_scheme-All (λ c. (c == 10) ≡ false) _ clean)))
      h e
