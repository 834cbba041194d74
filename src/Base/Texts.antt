-- ===== src/Base/Texts.antt =====
-- Python's `str` as the list of its code points, with the methods that the program calls.
use Prim.Native.Char.{code}
use Prim.Native.String.{String}
use Prim.Native.Nat.{ℕ}
use mathlib.Core.Path.{◌≡◌, refl}
use mathlib.Core.Logic.{◌↔◌, ◌⊎◌, inl, inr}
use mathlib.Core.Bool.{Bool, true, false, ◌&&◌, ◌||◌}
use mathlib.Core.List.{List, [], ◌∷◌, ◌++◌}
use native.Mathlib.Omega.{arith}
use roscope.Base.Tests.{◌==◌, ltb, if◌then◌else◌, Bool-cases}

abbrev pub Text : Type 0
Text = List ℕ

-- A literal of the source, as its code points.
abbrev pub chars : String → Text
chars String.[] = []
chars (String.◌∷◌ c s) = code c ∷ chars s

-- `a == b` on texts
unfoldable pub text_eq : Text → Text → Bool
text_eq [] [] = true
text_eq (x ∷ xs) (y ∷ ys) = x == y && text_eq xs ys
text_eq _ _ = false

pub text_eq_refl : (a : Text) → text_eq a a ≡ true
unfolding text_eq
text_eq_refl [] = refl
text_eq_refl (x ∷ xs) = ground (arith, text_eq_refl xs)

pub text_eq_iff : (a b : Text) → (text_eq a b ≡ true) ↔ (a ≡ b)
unfolding text_eq
text_eq_iff [] [] = (λ _. refl, λ _. refl)
text_eq_iff [] (y ∷ ys) = (λ h. cc, λ h. cc)
text_eq_iff (x ∷ xs) [] = (λ h. cc, λ h. cc)
text_eq_iff (x ∷ xs) (y ∷ ys) = ground (arith, text_eq_iff xs ys)

pub text_eq_comm : (a b : Text) → text_eq a b ≡ text_eq b a
text_eq_comm a b = ground (arith, text_eq_iff a b, text_eq_iff b a)

pub text_eq-false : (a b : Text) → ¬ (a ≡ b) → text_eq a b ≡ false
text_eq-false a b n = elim (Bool-cases (text_eq a b)) [
  | inl e ↦ absurd (n ((text_eq_iff a b).0 e))
  | inr e ↦ e
]

-- `a < b` on texts: by the first code point that differs
unfoldable pub text_lt : Text → Text → Bool
text_lt [] [] = false
text_lt [] (y ∷ ys) = true
text_lt (x ∷ xs) [] = false
text_lt (x ∷ xs) (y ∷ ys) = ltb x y || x == y && text_lt xs ys

-- `s.startswith(p)`
abbrev pub starts_with : Text → Text → Bool
starts_with [] s = true
starts_with (p ∷ ps) [] = false
starts_with (p ∷ ps) (c ∷ s) = c == p && starts_with ps s

abbrev pub drop_while : (ℕ → Bool) → Text → Text
drop_while p [] = []
drop_while p (c ∷ s) = if p c then drop_while p s else c ∷ s

-- `s.rstrip(c)`
unfoldable pub rstrip : ℕ → Text → Text
rstrip c [] = []
rstrip c (x ∷ s) = elim (rstrip c s) [ [] ↦ if x == c then [] else x ∷ [] | y ∷ r ↦ x ∷ y ∷ r ]

-- `s.endswith(c)`
abbrev pub ends_with : ℕ → Text → Bool
ends_with c [] = false
ends_with c (x ∷ []) = x == c
ends_with c (x ∷ y ∷ s) = ends_with c (y ∷ s)

pub ends_with-rstrip : (c : ℕ) (s : Text) → ends_with c (rstrip c s) ≡ false
unfolding rstrip
ends_with-rstrip c [] = refl
ends_with-rstrip c (x ∷ s) = ground (arith, ends_with-rstrip c s)

pub rstrip-eq_self : (c : ℕ) (s : Text) → ends_with c s ≡ false → rstrip c s ≡ s
unfolding rstrip
rstrip-eq_self c [] h = refl
rstrip-eq_self c (x ∷ []) h = ground arith
rstrip-eq_self c (x ∷ y ∷ s) h = rw (rstrip-eq_self c (y ∷ s) h)

pub rstrip_idem : (c : ℕ) (s : Text) → rstrip c (rstrip c s) ≡ rstrip c s
rstrip_idem c s = rstrip-eq_self c (rstrip c s) (ends_with-rstrip c s)

-- Stripping stops inside the second part, when that part has something to keep.
pub rstrip-append :
    (c : ℕ) (xs ys : Text) {y : ℕ} {r : Text}
    → rstrip c ys ≡ y ∷ r
    → rstrip c (xs ++ ys) ≡ xs ++ rstrip c ys
unfolding rstrip
rstrip-append c [] ys h = refl
rstrip-append c (x ∷ []) ys h = rw h
rstrip-append c (x ∷ z ∷ xs) ys h = rw (rstrip-append c (z ∷ xs) ys h)

pub rstrip_snoc : (c : ℕ) (s : Text) → rstrip c (s ++ c ∷ []) ≡ rstrip c s
unfolding rstrip
rstrip_snoc c [] = ground arith
rstrip_snoc c (x ∷ s) = rw (rstrip_snoc c s) refl

pub starts_with_append : (c : ℕ) (s t : Text) → starts_with (c ∷ []) ((c ∷ s) ++ t) ≡ true
starts_with_append c s t = ground arith

-- `k in names`
unfoldable pub contains_text : List Text → Text → Bool
contains_text [] k = false
contains_text (j ∷ js) k = text_eq j k || contains_text js k

abbrev pub TextMem : Text → List Text → Type 0
TextMem k [] = ⊥
TextMem k (j ∷ js) = (j ≡ k) ⊎ TextMem k js

pub contains_text_iff : (js : List Text) (k : Text) → (contains_text js k ≡ true) ↔ TextMem k js
unfolding contains_text
contains_text_iff [] k = (λ h. cc, λ h. absurd h)
contains_text_iff (j ∷ js) k = ground (arith, text_eq_iff j k, contains_text_iff js k)
