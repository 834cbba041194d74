-- ===== src/Indexer/Order/Counts.antt =====
-- Counts of the lists and dictionaries that `compute_build_order` of roscope/indexer.py goes through.
use roscope.Base.{
  ℕ, suc, ◌+◌, ◌≤◌, Text, Dict, List, [], ◌∷◌, ◌++◌, some, ◌||◌, ◌≡◌, refl, arith, lookup, insert,
  contains_text, text_eq, text_eq_iff, text_eq_refl, if◌then◌else◌, length, bit, occurrences,
}
use roscope.Indexer.Order.{ℤ, pos, change, decrement, increment, pop_last}

pub occurrences-pop_last :
    (x y : Text) (ys : List Text)
    → occurrences x (pop_last y ys).0 + bit (text_eq (pop_last y ys).1 x) ≡ occurrences x (y ∷ ys)
unfolding occurrences pop_last
occurrences-pop_last x y [] = omega arith
occurrences-pop_last x y (z ∷ zs) = omega (arith, occurrences-pop_last x z zs)

pub occurrences_self : (x : Text) (xs : List Text) → occurrences x (x ∷ xs) ≡ suc (occurrences x xs)
unfolding occurrences
occurrences_self x xs = rw (text_eq_refl x) (omega arith)

-- A list without one occurrence of a text.
abbrev erase_one : Text → List Text → List Text
erase_one x [] = []
erase_one x (y ∷ ys) = let rest = erase_one x ys in if text_eq y x then ys else y ∷ rest

occurrences-erase_one :
    (x z : Text) (ys : List Text)
    → 1 ≤ occurrences x ys
    → occurrences z ys ≡ bit (text_eq x z) + occurrences z (erase_one x ys)
unfolding occurrences
occurrences-erase_one x z [] h = omega arith
occurrences-erase_one x z (y ∷ ys) h =
    ground (arith, occurrences-erase_one x z ys, text_eq_iff y x, text_eq_iff y z, text_eq_iff x z)

length-erase_one :
    (x : Text) (ys : List Text) → 1 ≤ occurrences x ys → length ys ≡ suc (length (erase_one x ys))
unfolding occurrences
length-erase_one x [] h = omega arith
length-erase_one x (y ∷ ys) h = ground (arith, length-erase_one x ys)

-- A list in which nothing occurs more often than in another is not longer.
pub length-le :
    (xs ys : List Text) → ((x : Text) → occurrences x xs ≤ occurrences x ys) → length xs ≤ length ys
unfolding occurrences
length-le [] ys h = omega arith
length-le (x ∷ xs) ys h =
    let there : 1 ≤ occurrences x ys = omega (arith, h x, occurrences_self x xs) in
    omega (
      arith,
      length-erase_one x ys there,
      length-le xs (erase_one x ys) (λ z. omega (arith, h z, occurrences-erase_one x z ys there)),
    )

pub change-decrement :
    (x : Text) (n : ℕ) (d : Dict ℤ)
    → lookup x d ≡ some (pos (suc n))
    → change decrement x d ≡ some (insert x (pos n) d)
unfolding change
change-decrement x n d h = rw h refl

pub change-increment :
    (x : Text) (n : ℕ) (d : Dict ℤ)
    → lookup x d ≡ some (pos n)
    → change increment x d ≡ some (insert x (pos (suc n)) d)
unfolding change
change-increment x n d h = rw h refl

pub contains_text-snoc :
    (xs : List Text) (x y : Text)
    → contains_text (xs ++ x ∷ []) y ≡ (contains_text xs y || text_eq x y)
unfolding contains_text
contains_text-snoc [] x y = ground arith
contains_text-snoc (z ∷ zs) x y = ground (arith, contains_text-snoc zs x y)
