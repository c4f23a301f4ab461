-- ===== src/Common/Text.antt =====
-- Python `str` values as lists of code points, with the methods that the program uses. `lower` and
-- `strip` are exact on ASCII text; code points from 128 on are left as they are.
pub mod Laws
use Prim.Native.Char.{code}
use Prim.Native.String.{String}
use Prim.Native.Nat.{ℕ, zero, suc, ◌+◌, ◌/◌, ◌%◌}
use mathlib.Core.Bool.{Bool, true, false, not, ◌&&◌, ◌||◌}
use mathlib.Core.Option.{Option, none, some}
use mathlib.Core.List.{List, [], ◌∷◌, ◌++◌, map}
use aicybersec.Common.Tests.{leb, ◌==◌, if◌then◌else◌}

abbrev pub Text : Type 0
Text = List ℕ

-- A literal of the source.
abbrev pub codes : String → Text
codes String.[] = []
codes (String.◌∷◌ c s) = code c ∷ codes s

unfoldable pub text_eq : Text → Text → Bool
text_eq [] [] = true
text_eq (c ∷ s) (d ∷ t) = c == d && text_eq s t
text_eq _ _ = false

-- `x in xs`, for a list or a set of texts
unfoldable pub elem : Text → List Text → Bool
elem x [] = false
elem x (y ∷ ys) = text_eq x y || elem x ys

abbrev pub is_empty : Text → Bool
is_empty [] = true
is_empty (c ∷ s) = false

-- What `str.strip()` removes.
abbrev pub is_space : ℕ → Bool
is_space c = (leb 9 c && leb c 13) || (leb 28 c && leb c 32)

unfoldable pub lstrip : Text → Text
lstrip [] = []
lstrip (c ∷ s) = let rest = lstrip s in if is_space c then rest else c ∷ s

unfoldable pub rstrip : Text → Text
rstrip [] = []
rstrip (c ∷ s) = let rest = rstrip s in if is_space c && is_empty rest then [] else c ∷ rest

unfoldable pub strip : Text → Text
unfolding lstrip rstrip
strip s = rstrip (lstrip s)

abbrev pub is_upper : ℕ → Bool
is_upper c = leb b'A' c && leb c b'Z'

unfoldable pub lower_code : ℕ → ℕ
lower_code c = if is_upper c then c + 32 else c

unfoldable pub lower : Text → Text
unfolding lower_code
lower [] = []
lower (c ∷ s) = lower_code c ∷ lower s

-- `c in s`, for one character
unfoldable pub has : ℕ → Text → Bool
has c [] = false
has c (d ∷ s) = c == d || has c s

unfoldable pub starts_with : Text → Text → Bool
starts_with s [] = true
starts_with [] (d ∷ t) = false
starts_with (c ∷ s) (d ∷ t) = c == d && starts_with s t

unfoldable pub ends_with : Text → Text → Bool
unfolding text_eq
ends_with [] t = text_eq [] t
ends_with (c ∷ s) t = text_eq (c ∷ s) t || ends_with s t

-- `t in s`, for a text
unfoldable pub has_text : Text → Text → Bool
unfolding starts_with
has_text t [] = starts_with [] t
has_text t (c ∷ s) = starts_with (c ∷ s) t || has_text t s

-- `s[:-1]`
unfoldable pub drop_last : Text → Text
drop_last [] = []
drop_last (c ∷ []) = []
drop_last (c ∷ d ∷ s) = c ∷ drop_last (d ∷ s)

-- `if s.endswith(c): s = s[:-1]`, for one character
unfoldable pub drop_trailing : ℕ → Text → Text
unfolding ends_with drop_last
drop_trailing c s = if ends_with s (c ∷ []) then drop_last s else s

-- `s.partition(c)`: what stands before the first `c`, and what stands after it.
unfoldable pub before : ℕ → Text → Text
before c [] = []
before c (d ∷ s) = let rest = before c s in if c == d then [] else d ∷ rest

unfoldable pub after : ℕ → Text → Text
after c [] = []
after c (d ∷ s) = let rest = after c s in if c == d then s else rest

-- `s.rpartition(c)[2]`: what stands after the last `c`, and all of it if there is none.
unfoldable pub after_last : ℕ → Text → Text
unfolding has
after_last c [] = []
after_last c (d ∷ s) =
    let rest = after_last c s in if has c s then rest else if c == d then s else d ∷ s

-- `str` of a number: its decimal digits, most significant first; `suc n` rounds suffice.
abbrev pub digits : ℕ → ℕ → Text → Text
digits zero n out = out
digits (suc fuel) n out =
    let next = (48 + n % 10) ∷ out in
    let rest = digits fuel (n / 10) next in if n / 10 == 0 then next else rest

unfoldable pub decimal : ℕ → Text
decimal n = digits (suc n) n []
