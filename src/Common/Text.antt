-- ===== src/Common/Text.antt =====
-- JavaScript strings as lists of character codes. Case mapping is that of ASCII.
use Prim.Native.Nat.{ℕ, ◌+◌, ◌-◌}
use Prim.Native.Char.{code}
use Prim.Native.String.{String}
use mathlib.Core.Path.{◌≡◌, refl}
use mathlib.Core.Bool.{Bool, true, false, ◌&&◌, ◌||◌}
use mathlib.Core.List.{List, [], ◌∷◌, map, reverse}
use native.Mathlib.Omega.{arith}
use lqc_liquidity_chain.Common.Tests.{leb, ◌==◌, if◌then◌else◌, same_text}

abbrev pub Text : Type 0
Text = List ℕ

-- The characters of a literal.
abbrev pub codes : String → Text
codes String.[] = []
codes (String.◌∷◌ c s) = code c ∷ codes s

-- `\s` of a regular expression, and what `trim` removes.
unfoldable pub is_space : ℕ → Bool
is_space c =
    (leb 9 c && leb c 13)
    || c == 32
    || c == 0xa0
    || c == 0x1680
    || (leb 0x2000 c && leb c 0x200a)
    || c == 0x2028
    || c == 0x2029
    || c == 0x202f
    || c == 0x205f
    || c == 0x3000
    || c == 0xfeff

pub upper_char : ℕ → ℕ
upper_char c = if leb 97 c && leb c 122 then c - 32 else c

-- `text.toUpperCase()`
unfoldable pub to_upper : Text → Text
unfolding upper_char
to_upper = map upper_char

unfoldable pub lower_char : ℕ → ℕ
lower_char c = if leb 65 c && leb c 90 then c + 32 else c

-- `text.toLowerCase()`
unfoldable pub to_lower : Text → Text
unfolding lower_char
to_lower = map lower_char

lower_char_twice : (c : ℕ) → lower_char (lower_char c) ≡ lower_char c
unfolding lower_char
lower_char_twice c = ground arith

pub to_lower_twice : (s : Text) → to_lower (to_lower s) ≡ to_lower s
unfolding to_lower
to_lower_twice [] = refl
to_lower_twice (c ∷ s) = rw (lower_char_twice c, to_lower_twice s)

-- The list has the text.
abbrev pub has_text : Text → List Text → Bool
has_text t [] = false
has_text t (s ∷ ss) = same_text t s || has_text t ss

trim_start : Text → Text
trim_start [] = []
trim_start (c ∷ s) = if is_space c then trim_start s else c ∷ s

-- `text.trim()`
unfoldable pub trim : Text → Text
unfolding trim_start is_space
trim s = reverse (trim_start (reverse (trim_start s)))

-- `/^[A-Z0-9]+$/` on one character
unfoldable pub is_symbol_char : ℕ → Bool
is_symbol_char c = (leb 65 c && leb c 90) || (leb 48 c && leb c 57)

unfoldable pub is_empty : Text → Bool
is_empty [] = true
is_empty (_ ∷ _) = false

trim_check : trim (codes " a b ") ≡ codes "a b"
unfolding trim
trim_check = refl
