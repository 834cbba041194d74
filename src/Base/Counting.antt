-- ===== src/Base/Counting.antt =====
-- How often a text occurs in a list.
use Prim.Native.Nat.{ℕ, ◌+◌, ◌≤◌}
use mathlib.Core.Path.{◌≡◌, refl}
use mathlib.Core.Logic.{inl, inr}
use mathlib.Core.Bool.{Bool, true, false, not}
use mathlib.Core.List.{List, [], ◌∷◌, ◌++◌}
use native.Mathlib.Omega.{arith}
use roscope.Base.Tests.{◌==◌, Bool-cases}
use roscope.Base.Texts.{Text, text_eq, text_eq_iff, text_lt, contains_text}
use roscope.Base.Sorting.{insert_sorted, sorted}

abbrev pub bit : Bool → ℕ
bit true = 1
bit false = 0

unfoldable pub occurrences : Text → List Text → ℕ
occurrences x [] = 0
occurrences x (y ∷ ys) = bit (text_eq y x) + occurrences x ys

pub occurrences-append :
    (x : Text) (xs ys : List Text) → occurrences x (xs ++ ys) ≡ occurrences x xs + occurrences x ys
unfolding occurrences
occurrences-append x [] ys = omega arith
occurrences-append x (y ∷ xs) ys = omega (arith, occurrences-append x xs ys)

occurrences-insert_sorted :
    (x y : Text) (ys : List Text)
    → occurrences x (insert_sorted y ys) ≡ bit (text_eq y x) + occurrences x ys
unfolding occurrences insert_sorted
occurrences-insert_sorted x y [] = refl
occurrences-insert_sorted x y (z ∷ zs) = elim (Bool-cases (text_lt z y)) [
  | inl less ↦ rw less (omega (arith, occurrences-insert_sorted x y zs))
  | inr not_less ↦ rw not_less refl
]

pub occurrences-sorted : (x : Text) (xs : List Text) → occurrences x (sorted xs) ≡ occurrences x xs
unfolding occurrences sorted
occurrences-sorted x [] = refl
occurrences-sorted x (y ∷ ys) =
    omega (arith, occurrences-insert_sorted x y (sorted ys), occurrences-sorted x ys)

pub contains_text-occurrences :
    (x : Text) (xs : List Text) → contains_text xs x ≡ not (occurrences x xs == 0)
unfolding occurrences contains_text
contains_text-occurrences x [] = refl
contains_text-occurrences x (y ∷ ys) = ground (arith, contains_text-occurrences x ys)

-- No text comes twice.
abbrev pub AllDistinct : List Text → Type 0
AllDistinct [] = Unit
AllDistinct (x ∷ xs) = (contains_text xs x ≡ false) × AllDistinct xs

pub AllDistinct-occurrences : (xs : List Text) → AllDistinct xs → (x : Text) → occurrences x xs ≤ 1
unfolding occurrences
AllDistinct-occurrences [] h x = omega arith
AllDistinct-occurrences (y ∷ ys) h x = elim (Bool-cases (text_eq y x)) [
  | inl same ↦ ground (arith, text_eq_iff y x, contains_text-occurrences y ys)
  | inr other ↦ rw other (omega (arith, AllDistinct-occurrences ys h.1 x))
]
