-- ===== src/Base/Text/Trimming.antt =====
-- That `TrimSpace` and `ToLower` of Go's `strings` package commute, and that both together change
-- nothing the second time.
use Prim.Native.Char.{Char}
use Prim.Native.String.{String, [], ◌∷◌}
use mathlib.Core.Path.{◌≡◌, refl, ap, ap₂, ◌∙◌}
use mathlib.Core.Bool.{false}
use mathlib.Core.Logic.{inl, inr}
use native.Mathlib.Omega.{arith}
use cdmp_mini.Base.Tests.{Bool-cases}
use cdmp_mini.Base.Text.{is_space, trim_left, push_trimmed, trim_right, trim_space, to_lower}

trim_right-push_trimmed :
    (c : Char) (s : String) → trim_right s ≡ s → trim_right (push_trimmed c s) ≡ push_trimmed c s
unfolding trim_right push_trimmed
trim_right-push_trimmed c [] h = elim (Bool-cases (is_space c)) [
  | inl spaced ↦ rw spaced refl
  | inr kept ↦ rw kept (rw kept refl)
]
trim_right-push_trimmed c (d ∷ s) h = ap (push_trimmed c) h

trim_right_idem : (s : String) → trim_right (trim_right s) ≡ trim_right s
unfolding trim_right
trim_right_idem [] = refl
trim_right_idem (c ∷ s) = trim_right-push_trimmed c (trim_right s) (trim_right_idem s)

trim_left-push_trimmed :
    (c : Char) (s : String) → is_space c ≡ false → trim_left (push_trimmed c s) ≡ push_trimmed c s
unfolding trim_left push_trimmed
trim_left-push_trimmed c [] h = ground (arith, h)
trim_left-push_trimmed c (d ∷ s) h = ground (arith, h)

trim_left-trim_right :
    (s : String) → trim_left (trim_right (trim_left s)) ≡ trim_right (trim_left s)
unfolding trim_left trim_right
trim_left-trim_right [] = refl
trim_left-trim_right (c ∷ s) =
    let rest = trim_left-trim_right s in
    let kept = trim_left-push_trimmed c (trim_right s) in
    elim (Bool-cases (is_space c)) [
      | inl h ↦ ground (arith, h, rest)
      | inr h ↦ ground (arith, h, kept h)
    ]

pub trim_space_idem : (s : String) → trim_space (trim_space s) ≡ trim_space s
unfolding trim_space
trim_space_idem s = ap trim_right (trim_left-trim_right s) ∙ trim_right_idem (trim_left s)

-- What the lemmas ask of `unicode.ToLower`: a second time it changes nothing, and the lower case of a
-- rune is a space just where the rune is.
pub record LowersRunes (lower_rune : Char → Char) : Type 0 where
  pub idem : (c : Char) → lower_rune (lower_rune c) ≡ lower_rune c
  pub keeps_space : (c : Char) → is_space (lower_rune c) ≡ is_space c

module _ (lower_rune : Char → Char) (lowers : LowersRunes lower_rune) where
  to_lower_idem : (s : String) → to_lower lower_rune (to_lower lower_rune s) ≡ to_lower lower_rune s
  unfolding to_lower
  to_lower_idem [] = refl
  to_lower_idem (c ∷ s) = ap₂ (λ d t. d ∷ t) (lowers.idem c) (to_lower_idem s)

  trim_left-to_lower :
      (s : String) → trim_left (to_lower lower_rune s) ≡ to_lower lower_rune (trim_left s)
  unfolding to_lower trim_left
  trim_left-to_lower [] = refl
  trim_left-to_lower (c ∷ s) =
      let rest = trim_left-to_lower s in
      let same = lowers.keeps_space c in ground (arith, rest, same)

  push_trimmed-to_lower :
      (c : Char) (s : String)
      → push_trimmed (lower_rune c) (to_lower lower_rune s) ≡ to_lower lower_rune (push_trimmed c s)
  unfolding to_lower push_trimmed
  push_trimmed-to_lower c [] = elim (Bool-cases (is_space c)) [
    | inl spaced ↦ rw (lowers.keeps_space c, spaced) refl
    | inr kept ↦ rw (lowers.keeps_space c, kept) refl
  ]
  push_trimmed-to_lower c (d ∷ s) = refl

  trim_right-to_lower :
      (s : String) → trim_right (to_lower lower_rune s) ≡ to_lower lower_rune (trim_right s)
  unfolding to_lower trim_right
  trim_right-to_lower [] = refl
  trim_right-to_lower (c ∷ s) =
      ap (push_trimmed (lower_rune c)) (trim_right-to_lower s)
      ∙ push_trimmed-to_lower c (trim_right s)

  trim_space-to_lower :
      (s : String) → trim_space (to_lower lower_rune s) ≡ to_lower lower_rune (trim_space s)
  unfolding trim_space
  trim_space-to_lower s = ap trim_right (trim_left-to_lower s) ∙ trim_right-to_lower (trim_left s)

  pub to_lower-trim_space_idem :
      (s : String)
      → to_lower lower_rune (trim_space (to_lower lower_rune (trim_space s)))
        ≡ to_lower lower_rune (trim_space s)
  to_lower-trim_space_idem s =
      ap (to_lower lower_rune)
        (trim_space-to_lower (trim_space s) ∙ ap (to_lower lower_rune) (trim_space_idem s))
      ∙ to_lower_idem (trim_space s)
