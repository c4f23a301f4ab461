-- ===== src/Persistence/Hosts.antt =====
-- The host that `_candidate_host` takes from a candidate, and the rows that have it.
use aicybersec.Common.{
  ℕ, ◌≡◌, ◌≢◌, refl, sym, ap, ◌⊎◌, inl, inr, true, false, ◌&&◌, Option, none, some, List, [], ◌∷◌,
  ◌++◌, All, Bool-cases, Result, ok, err, Exn, some_inv, ◌==◌, ==_iff, arith,
}
use aicybersec.Common.Text.{Text, codes, is_empty, strip, lower, has, has_text}
use aicybersec.Common.Text.Laws.{text_eq_iff}
use aicybersec.Persistence.{Asset}
use aicybersec.Persistence.Builders.{Parsed, urlparse}
use aicybersec.Persistence.Matching.{lower_host, candidate_host, is_host, by_host}
use aicybersec.Persistence.Hits.{IsAt}

-- The host of a candidate without spaces: its text, stripped and in lower case, or that of the host of a
-- URL.
abbrev pub IsHostOf : Text → Text → Type 0
IsHostOf c h =
    (strip c ≢ [])
    × (has b' ' (strip c) ≡ false)
    × (((has_text (codes "://") (strip c) ≡ false) × (h ≡ lower (strip c)))
        ⊎ ((has_text (codes "://") (strip c) ≡ true)
            × ((p : Parsed) × (g : Text) × (urlparse (strip c) ≡ ok p)
                × (p.hostname ≡ some g)
                × (h ≡ lower g))))

-- The row is the only one of the scan with the host.
abbrev pub IsSole : ℕ → Text → List Asset → Asset → Type 0
IsSole scan_id h rows row =
    (before : List Asset) × (after : List Asset) × (rows ≡ before ++ row ∷ after)
    × IsAt scan_id h row
    × All (λ r. ¬ IsAt scan_id h r) before
    × All (λ r. ¬ IsAt scan_id h r) after

lower-some :
    (o : Option Text) (h : Text)
    → (elim o [ none ↦ none | some g ↦ some (lower g) ]) ≡ some h
    → (g : Text) × (o ≡ some g) × (h ≡ lower g)
lower-some none h q = cc
lower-some (some g) h q = (g, refl, sym (some_inv (lower g) h q))

lower_host_lem :
    (r : Result Exn Parsed) (h : Text)
    → lower_host r ≡ some h
    → (p : Parsed) × (g : Text) × (r ≡ ok p) × (p.hostname ≡ some g) × (h ≡ lower g)
lower_host_lem (err e) h q = cc
lower_host_lem (ok p) h q = let (g, a, b) = lower-some p.hostname h q in (p, g, refl, a, b)

pub filled : (x : Text) → is_empty x ≡ false → x ≢ []
filled x e q = let same : is_empty x ≡ true = rw q refl in cc

pub not_empty : (x : Text) → x ≢ [] → is_empty x ≡ false
not_empty [] f = absurd (f refl)
not_empty (c ∷ cs) f = refl

pub candidate_host-IsHostOf : (c h : Text) → candidate_host c ≡ some h → IsHostOf c h
unfolding candidate_host
candidate_host-IsHostOf c h e = elim (Bool-cases (is_empty (strip c))) [
  | inl a ↦ absurd (let q = rw a at e in cc)
  | inr a ↦ elim (Bool-cases (has b' ' (strip c))) [
    | inl b ↦ absurd (let q = rw (a, b) at e in cc)
    | inr b ↦ elim (Bool-cases (has_text (codes "://") (strip c))) [
      | inl u ↦ (
        filled (strip c) a,
        b,
        inr (u, lower_host_lem (urlparse (strip c)) h (rw (a, b, u) at e)),
      )
      | inr u ↦
          (filled (strip c) a, b, inl (u, sym (some_inv (lower (strip c)) h (rw (a, b, u) at e))))
    ]
  ]
]

pub IsHostOf-candidate_host : (c h : Text) → IsHostOf c h → candidate_host c ≡ some h
unfolding candidate_host
IsHostOf-candidate_host c h (f, s, inl (u, q)) = rw (not_empty (strip c) f, s, u, q) refl
IsHostOf-candidate_host c h (f, s, inr (u, (p, g, a, b, q))) =
    rw (not_empty (strip c) f, s, u, a, b, q) refl

is_host_some : (o : Option Text) (h : Text) → is_host o h ≡ true → o ≡ some h
is_host_some none h e = cc
is_host_some (some g) h e = ap some ((text_eq_iff g h).0 e)

away :
    (scan_id : ℕ) (h : Text) (row : Asset)
    → ¬ IsAt scan_id h row
    → (row.scan_id == scan_id && is_host row.host h) ≡ false
away scan_id h row n = elim (Bool-cases (row.scan_id == scan_id && is_host row.host h)) [
  | inr e ↦ e
  | inl e ↦
      absurd
        (n ((==_iff row.scan_id scan_id).0 (ground arith), is_host_some row.host h (ground arith)))
]

by_host-away :
    (scan_id : ℕ) (h : Text) (rows : List Asset)
    → All (λ r. ¬ IsAt scan_id h r) rows
    → by_host scan_id h rows ≡ []
unfolding by_host
by_host-away scan_id h [] n = refl
by_host-away scan_id h (row ∷ rows) (n, ns) =
    rw (away scan_id h row n) (by_host-away scan_id h rows ns)

by_host-middle :
    (scan_id : ℕ) (h : Text) (before after : List Asset) (row : Asset)
    → IsAt scan_id h row
    → All (λ r. ¬ IsAt scan_id h r) before
    → All (λ r. ¬ IsAt scan_id h r) after
    → by_host scan_id h (before ++ row ∷ after) ≡ row ∷ []
unfolding by_host
by_host-middle scan_id h [] after row (s, o) b a =
    let same : (row.scan_id == scan_id) ≡ true = (==_iff row.scan_id scan_id).1 s in
    let here : is_host row.host h ≡ true = rw o ((text_eq_iff h h).1 refl) in
    rw (same, here) (ap (λ rs. row ∷ rs) (by_host-away scan_id h after a))
by_host-middle scan_id h (r ∷ before) after row i (n, b) a =
    rw (away scan_id h r n) (by_host-middle scan_id h before after row i b a)

pub IsSole-by_host :
    (scan_id : ℕ) (h : Text) (rows : List Asset) (row : Asset)
    → IsSole scan_id h rows row
    → by_host scan_id h rows ≡ row ∷ []
IsSole-by_host scan_id h rows row (before, after, e, i, b, a) =
    rw e (by_host-middle scan_id h before after row i b a)
