-- ===== src/Base/Text.antt =====
-- What the code calls of Go's `strings` package.
pub mod Trimming
use mathlib.Core.Path.{◌≡◌, refl}
use Prim.Native.Char.{Char, code}
use Prim.Native.String.{String, [], ◌∷◌}
use mathlib.Core.Bool.{Bool, true, false, ◌&&◌, ◌||◌}
use cdmp_mini.Base.Tests.{leb, ◌==◌, if◌then◌else◌}

-- `unicode.IsSpace`
unfoldable pub is_space : Char → Bool
is_space c =
    let n = code c in
    (leb 9 n && leb n 13)
    || n == 0x20
    || n == 0x85
    || n == 0xa0
    || n == 0x1680
    || (leb 0x2000 n && leb n 0x200a)
    || n == 0x2028
    || n == 0x2029
    || n == 0x202f
    || n == 0x205f
    || n == 0x3000

pub trim_left : String → String
trim_left [] = []
trim_left (c ∷ s) = let rest = trim_left s in if is_space c then rest else c ∷ s

-- Put `c` in front of a text that is trimmed on the right.
push_trimmed : Char → String → String
push_trimmed c [] = if is_space c then [] else c ∷ []
push_trimmed c (d ∷ s) = c ∷ d ∷ s

pub trim_right : String → String
trim_right [] = []
trim_right (c ∷ s) = push_trimmed c (trim_right s)

-- `strings.TrimSpace`
unfoldable pub trim_space : String → String
unfolding trim_left trim_right push_trimmed is_space
trim_space s = trim_right (trim_left s)

-- `s == ""`
abbrev pub is_empty : String → Bool
is_empty [] = true
is_empty (c ∷ s) = false

pub is_empty-trim_space : (s : String) → is_empty (trim_space s) ≡ false → is_empty s ≡ false
unfolding trim_space
is_empty-trim_space [] h = absurd (cc h)
is_empty-trim_space (c ∷ s) h = refl

-- `strings.ToLower`, with `unicode.ToLower` as `lower_rune`
unfoldable pub to_lower : (Char → Char) → String → String
to_lower lower_rune [] = []
to_lower lower_rune (c ∷ s) = lower_rune c ∷ to_lower lower_rune s
