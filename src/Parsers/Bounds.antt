-- ===== src/Parsers/Bounds.antt =====
-- The caps on what the parsers let through.
use aicybersec.Common.{
  ℕ, zero, suc, ◌≤◌, ◌<◌, ◌≡◌, refl, inl, inr, false, Option, none, some, List, [], ◌∷◌, take,
  length, length-append, length-take, All, All-append, Bool-cases, Option-cases, else_some,
  some_inv, leb, arith,
}
use mathlib.Core.Path.{subst}
use aicybersec.Common.Text.{Text, codes, is_empty, elem, strip}
use aicybersec.Discovery.Names.{insert}
use aicybersec.Persistence.Json.{
  Json, null, string, scalar, array, object, Items, no_items, item, Dict, get_key,
}
use aicybersec.Parsers.{
  clean_str, add_text, items_of, clean_first, clean_list, Subdomain, or_primary, subdomain_of,
  normalize_subfinder, normalize_line, splitlines, parse_subfinder_jsonl,
}
use aicybersec.Parsers.Laws.{not_blank_lines, cons_some, usable, parse_jsonl-IsParsed}

-- A text that is not empty, of at most 500 characters.
abbrev pub IsShortText : Text → Type 0
IsShortText t = (is_empty t ≡ false) × (length t ≤ 500)

-- At most ten such texts.
abbrev pub AreShortTexts : List Text → Type 0
AreShortTexts ts = All IsShortText ts × (length ts ≤ 10)

abbrev pub IsBounded : Subdomain → Type 0
IsBounded r = IsShortText r.subdomain × AreShortTexts r.sources × AreShortTexts r.discovered_ips

take_not_empty : (t : Text) → is_empty t ≡ false → is_empty (take 500 t) ≡ false
take_not_empty [] h = cc
take_not_empty (c ∷ s) h = refl

clean_str-IsShortText : (j : Json) (t : Text) → clean_str j ≡ some t → IsShortText t
unfolding clean_str
clean_str-IsShortText null t h = cc
clean_str-IsShortText (scalar s) t h = cc
clean_str-IsShortText (array js) t h = cc
clean_str-IsShortText (object d) t h = cc
clean_str-IsShortText (string s) t h =
    let (e, q) = else_some (is_empty (strip s)) (some (take 500 (strip s))) t h in
    let same : take 500 (strip s) ≡ t = cc in
    let n = length-take 500 (strip s) in
    subst IsShortText same (take_not_empty (strip s) e, omega arith)

add_text-All :
    (j : Json) (out : List Text)
    → All IsShortText out
    → All IsShortText (add_text (clean_str j) out)
      × (length (add_text (clean_str j) out) ≤ suc (length out))
unfolding insert
add_text-All j out h = elim (Option-cases (clean_str j)) [
  | inl e ↦ rw e (h, omega arith)
  | inr (t, e) ↦ elim (Bool-cases (elem t out)) [
    | inl m ↦ rw (e, m) (h, omega arith)
    | inr m ↦
        let n = length-append out (t ∷ []) in
        rw (e, m)
          (All-append IsShortText out (t ∷ []) h (clean_str-IsShortText j t e, tt), omega arith)
  ]
]

clean_first-AreShortTexts :
    (out : List Text) (js : Items)
    → All IsShortText out
    → length out < 10
    → AreShortTexts (clean_first out js)
unfolding clean_first
clean_first-AreShortTexts out no_items h n = (h, omega arith)
clean_first-AreShortTexts out (item j js) h n =
    let (a, b) = add_text-All j out h in
    elim (Bool-cases (leb 10 (length (add_text (clean_str j) out)))) [
      | inl e ↦ rw (e, clean_first) (a, omega arith)
      | inr e ↦
          rw (e, clean_first)
            (clean_first-AreShortTexts (add_text (clean_str j) out) js a (ground arith))
    ]

clean_list-AreShortTexts : (j : Json) → AreShortTexts (clean_list j)
clean_list-AreShortTexts j = clean_first-AreShortTexts [] (items_of j) tt (omega arith)

or_primary-AreShortTexts :
    (ts : List Text) (j : Json) → AreShortTexts ts → AreShortTexts (or_primary ts (clean_str j))
or_primary-AreShortTexts (s ∷ ss) j h = h
or_primary-AreShortTexts [] j h = elim (Option-cases (clean_str j)) [
  | inl e ↦ rw e (tt, omega arith)
  | inr (t, e) ↦ rw e ((clean_str-IsShortText j t e, tt), omega arith)
]

subdomain_of-IsBounded :
    (d : Dict) (o : Option Text) (r : Subdomain)
    → clean_str (get_key (codes "host") d) ≡ o
    → subdomain_of d o ≡ some r
    → IsBounded r
subdomain_of-IsBounded d none r e h = cc
subdomain_of-IsBounded d (some host) r e h =
    let sources = clean_list-AreShortTexts (get_key (codes "sources") d) in
    let all : IsBounded (record {
      subdomain = host;
      sources =
          or_primary (clean_list (get_key (codes "sources") d))
            (clean_str (get_key (codes "source") d));
      discovered_ips = clean_list (get_key (codes "ip") d);
    }) =
      (
        clean_str-IsShortText (get_key (codes "host") d) host e,
        or_primary-AreShortTexts (clean_list (get_key (codes "sources") d)) _ sources,
        clean_list-AreShortTexts (get_key (codes "ip") d),
      ) in
    subst IsBounded (some_inv _ _ h) all

normalize_subfinder-IsBounded :
    (j : Json) (r : Subdomain) → normalize_subfinder j ≡ some r → IsBounded r
unfolding normalize_subfinder
normalize_subfinder-IsBounded null r h = cc
normalize_subfinder-IsBounded (string s) r h = cc
normalize_subfinder-IsBounded (scalar s) r h = cc
normalize_subfinder-IsBounded (array js) r h = cc
normalize_subfinder-IsBounded (object d) r h =
    subdomain_of-IsBounded d (clean_str (get_key (codes "host") d)) r refl h

normalize_line-IsBounded :
    (o : Option Json) (r : Subdomain) → normalize_line normalize_subfinder o ≡ some r → IsBounded r
normalize_line-IsBounded none r h = cc
normalize_line-IsBounded (some j) r h = normalize_subfinder-IsBounded j r h

cons_some-IsBounded :
    (o : Option Subdomain) (rs : List Subdomain)
    → ((r : Subdomain) → o ≡ some r → IsBounded r)
    → All IsBounded rs
    → All IsBounded (cons_some o rs)
cons_some-IsBounded none rs f h = h
cons_some-IsBounded (some r) rs f h = (f r refl, h)

usable-IsBounded :
    (loads : Text → Option Json) (lines : List Text)
    → All IsBounded (usable loads normalize_subfinder lines)
unfolding usable
usable-IsBounded loads [] = tt
usable-IsBounded loads (l ∷ ls) =
    cons_some-IsBounded (normalize_line normalize_subfinder (loads l)) _
      (normalize_line-IsBounded (loads l)) (usable-IsBounded loads ls)

All-take : (n : ℕ) (rs : List Subdomain) → All IsBounded rs → All IsBounded (take n rs)
All-take zero rs h = tt
All-take (suc n) [] h = tt
All-take (suc n) (r ∷ rs) (p, h) = (p, All-take n rs h)

-- Whatever Subfinder prints, at most 500 records come out, each with a name and lists of at most ten
-- texts, none of them empty or longer than 500 characters.
pub parse_subfinder_jsonl-IsBounded :
    (loads : Text → Option Json) (s : Text)
    → (length (parse_subfinder_jsonl loads s).0 ≤ 500)
      × All IsBounded (parse_subfinder_jsonl loads s).0
parse_subfinder_jsonl-IsBounded loads s =
    let ((p, q), other) = parse_jsonl-IsParsed loads s in
    let good = usable loads normalize_subfinder (not_blank_lines (splitlines s)) in
    let n = length-take 500 good in
    (
      rw p (omega arith),
      rw p (All-take 500 good (usable-IsBounded loads (not_blank_lines (splitlines s)))),
    )
