-- ===== src/Safety/Url/Hosts.antt =====
-- The host of a URL: the lemmas on each stage of the parser.
use aicybersec.Common.{
  ℕ, ◌≡◌, refl, Bool, true, false, not, ◌&&◌, ◌||◌, [], ◌∷◌, ◌++◌, leb, ltb, ◌==◌, All, arith,
}
use aicybersec.Common.Text.{Text, rstrip, has, before, after_last}
use aicybersec.Safety.Url.{remove_breaks, netloc_end}

-- A visible character that has no meaning inside a netloc.
abbrev pub plain : ℕ → Bool
plain c =
    ltb 32 c
    && not (
        c == b'/'
        || c == b'?'
        || c == b'#'
        || c == b'@'
        || c == b'['
        || c == b']'
        || c == b'%'
        || c == b':')

-- A visible character that does not end a netloc, and is no bracket.
abbrev pub inner : ℕ → Bool
inner c = ltb 32 c && not (c == b'/' || c == b'?' || c == b'#' || c == b'[' || c == b']')

abbrev pub visible : ℕ → Bool
visible c = ltb 32 c

abbrev pub AllPlain : Text → Type 0
AllPlain = All (λ c. plain c ≡ true)

abbrev pub AllInner : Text → Type 0
AllInner = All (λ c. inner c ≡ true)

abbrev pub AllVisible : Text → Type 0
AllVisible = All (λ c. visible c ≡ true)

-- `rest` begins with "/", "?" or "#", or there is none.
abbrev pub starts_path : Text → Bool
starts_path [] = true
starts_path (c ∷ s) = c == b'/' || c == b'?' || c == b'#'

abbrev digit : ℕ → Bool
digit c = leb b'0' c && leb c b'9'

-- A port with its colon, or none.
abbrev pub IsPort : Text → Type 0
IsPort [] = Unit
IsPort (c ∷ s) = (c ≡ b':') × All (λ d. digit d ≡ true) s

pub rstrip_visible : (s : Text) → AllVisible s → rstrip s ≡ s
unfolding rstrip
rstrip_visible [] h = refl
rstrip_visible (c ∷ s) (v, h) = ground (arith, rstrip_visible s h)

pub remove_breaks_visible : (s : Text) → AllVisible s → remove_breaks s ≡ s
unfolding remove_breaks
remove_breaks_visible [] h = refl
remove_breaks_visible (c ∷ s) (v, h) = ground (arith, remove_breaks_visible s h)

pub netloc_end-append :
    (s rest : Text) → AllInner s → starts_path rest ≡ true → netloc_end (s ++ rest) ≡ s
unfolding netloc_end
netloc_end-append [] [] h p = refl
netloc_end-append [] (c ∷ rest) h p = ground arith
netloc_end-append (c ∷ s) rest (i, h) p = ground (arith, netloc_end-append s rest h p)

pub has_none : (c : ℕ) (s : Text) → All (λ d. (c == d) ≡ false) s → has c s ≡ false
unfolding has
has_none c [] h = refl
has_none c (d ∷ s) (n, h) = rw n (has_none c s h)

pub has-append : (c : ℕ) (s t : Text) → has c (s ++ t) ≡ (has c s || has c t)
unfolding has
has-append c [] t = refl
has-append c (d ∷ s) t = ground (arith, has-append c s t)

has_here : (c : ℕ) (t : Text) → has c (c ∷ t) ≡ true
unfolding has
has_here c t = ground arith

-- What follows the user information, where there is some, is what stands after the last "@".
pub after_last-append : (c : ℕ) (s t : Text) → has c t ≡ false → after_last c (s ++ c ∷ t) ≡ t
unfolding after_last has
after_last-append c [] t h = ground arith
after_last-append c (d ∷ s) t h =
    ground (arith, after_last-append c s t h, has-append c s (c ∷ t), has_here c t)

pub after_last_none : (c : ℕ) (t : Text) → has c t ≡ false → after_last c t ≡ t
unfolding after_last has
after_last_none c [] h = refl
after_last_none c (d ∷ t) h = ground arith

pub before-append : (c : ℕ) (s t : Text) → has c s ≡ false → before c (s ++ c ∷ t) ≡ s
unfolding before has
before-append c [] t h = ground arith
before-append c (d ∷ s) t h = ground (arith, before-append c s t)

pub before_none : (c : ℕ) (s : Text) → has c s ≡ false → before c s ≡ s
unfolding before has
before_none c [] h = refl
before_none c (d ∷ s) h = ground (arith, before_none c s)
