-- ===== src/Base/GoMap.antt =====
-- A Go map with string keys, as an association list. The order of the list is the order in which a
-- `range` loop happens to meet the keys; a nil map is the empty one, since both read alike.
use Prim.Native.Nat.{ℕ, ◌+◌}
use Prim.Native.String.{String}
use mathlib.Core.Path.{◌≡◌, refl}
use mathlib.Core.Logic.{◌≢◌}
use mathlib.Core.Option.{Option, none, some}
use mathlib.Core.List.{List, [], ◌∷◌}
use native.Mathlib.Omega.{arith}
use text.Mathlib.Text.{◌==◌ as str_eq}
use text.Mathlib.TextEquality.{eq_iff}
use cdmp_mini.Base.Tests.{if◌then◌else◌}

abbrev pub GoMap {ℓ} : Type ℓ → Type ℓ
GoMap V = List (String × V)

module _ {ℓ} {V : Type ℓ} where
  unfoldable pub lookup : String → GoMap V → Option V
  lookup k [] = none
  lookup k ((key, v) ∷ rest) = if str_eq key k then some v else lookup k rest

  -- m[k] = v
  unfoldable pub insert : String → V → GoMap V → GoMap V
  insert k v [] = (k, v) ∷ []
  insert k v ((key, old) ∷ rest) =
      if str_eq key k then (k, v) ∷ rest else (key, old) ∷ insert k v rest

  -- delete(m, k)
  unfoldable pub delete : String → GoMap V → GoMap V
  delete k [] = []
  delete k ((j, v) ∷ m) = let rest = delete k m in if str_eq j k then rest else (j, v) ∷ rest

  -- Every key stands once, as in any Go map.
  abbrev pub Distinct : GoMap V → Type ℓ
  Distinct [] = Unit
  Distinct ((j, v) ∷ m) = (lookup j m ≡ none) × Distinct m

module _ {ℓ} {V : Type ℓ} where
  -- The sum of a measure over the values.
  abbrev pub weigh : (V → ℕ) → GoMap V → ℕ
  weigh f [] = 0
  weigh f ((j, v) ∷ m) = f v + weigh f m

  abbrev pub weigh_found : (V → ℕ) → Option V → ℕ
  weigh_found f none = 0
  weigh_found f (some v) = f v

module _ {ℓ} {V : Type ℓ} where
  pub lookup-insert :
      (k j : String) (new : V) (entries : GoMap V)
      → lookup j (insert k new entries) ≡ (if str_eq k j then some new else lookup j entries)
  unfolding lookup insert
  lookup-insert k j new [] = refl
  lookup-insert k j new ((other, old) ∷ rest) =
      ground (arith, lookup-insert k j new rest, eq_iff other j, eq_iff other k, eq_iff k j)

  pub lookup-delete :
      (k j : String) (m : GoMap V)
      → lookup j (delete k m) ≡ (if str_eq k j then none else lookup j m)
  unfolding lookup delete
  lookup-delete k j [] = ground arith
  lookup-delete k j ((i, w) ∷ m) =
      ground (arith, eq_iff k j, eq_iff i k, eq_iff i j, lookup-delete k j m)

  pub lookup-insert_self : (k : String) (v : V) (m : GoMap V) → lookup k (insert k v m) ≡ some v
  lookup-insert_self k v m = ground (arith, lookup-insert k k v m, eq_iff k k)

  pub lookup-insert_ne :
      (k j : String) (v : V) (m : GoMap V) → k ≢ j → lookup j (insert k v m) ≡ lookup j m
  lookup-insert_ne k j v m h = ground (arith, lookup-insert k j v m, eq_iff k j)

  pub lookup-delete_self : (k : String) (m : GoMap V) → lookup k (delete k m) ≡ none
  lookup-delete_self k m = ground (arith, lookup-delete k k m, eq_iff k k)

  pub lookup-delete_ne : (k j : String) (m : GoMap V) → k ≢ j → lookup j (delete k m) ≡ lookup j m
  lookup-delete_ne k j m h = ground (arith, lookup-delete k j m, eq_iff k j)

  pub insert-Distinct : (k : String) (v : V) (m : GoMap V) → Distinct m → Distinct (insert k v m)
  unfolding lookup insert
  insert-Distinct k v [] d = (refl, tt)
  insert-Distinct k v ((i, w) ∷ m) d =
      ground (
        arith,
        eq_iff i k,
        eq_iff k i,
        eq_iff k k,
        lookup-insert k i v m,
        insert-Distinct k v m d.1,
      )

  pub delete-Distinct : (k : String) (m : GoMap V) → Distinct m → Distinct (delete k m)
  unfolding delete
  delete-Distinct k [] d = tt
  delete-Distinct k ((i, w) ∷ m) d =
      ground (arith, eq_iff k i, lookup-delete k i m, delete-Distinct k m d.1)

  pub weigh-insert :
      (f : V → ℕ) (k : String) (v : V) (m : GoMap V)
      → weigh f (insert k v m) + weigh_found f (lookup k m) ≡ weigh f m + f v
  unfolding lookup insert
  weigh-insert f k v [] = omega arith
  weigh-insert f k v ((i, w) ∷ m) = ground (arith, weigh-insert f k v m)

  delete_absent : (k : String) (m : GoMap V) → lookup k m ≡ none → delete k m ≡ m
  unfolding lookup delete
  delete_absent k [] h = refl
  delete_absent k ((i, w) ∷ m) h = ground (arith, delete_absent k m)

  pub weigh-delete :
      (f : V → ℕ) (k : String) (m : GoMap V)
      → Distinct m
      → weigh f (delete k m) + weigh_found f (lookup k m) ≡ weigh f m
  unfolding lookup delete
  weigh-delete f k [] d = omega arith
  weigh-delete f k ((i, w) ∷ m) d =
      ground (arith, eq_iff i k, delete_absent k m, weigh-delete f k m d.1)

pub ruleset map_laws = (
  lookup-insert, lookup-delete, lookup-insert_self, lookup-insert_ne, lookup-delete_self,
  lookup-delete_ne,
)
