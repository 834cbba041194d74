-- ===== src/Base/Sorting.antt =====
-- `sorted` on texts.
use mathlib.Core.Logic.{inl, inr}
use mathlib.Core.Path.{sym}
use mathlib.Core.List.{List, [], ◌∷◌, ◌++◌, Perm, append_assoc, perm_append_comm}
use mathlib.Core.List.Perm
use roscope.Base.Tests.{if◌then◌else◌, Bool-cases}
use roscope.Base.Texts.{Text, text_lt}

unfoldable pub insert_sorted : Text → List Text → List Text
insert_sorted x [] = x ∷ []
insert_sorted x (y ∷ ys) =
    let rest = insert_sorted x ys in if text_lt y x then y ∷ rest else x ∷ y ∷ ys

unfoldable pub sorted : List Text → List Text
unfolding insert_sorted
sorted [] = []
sorted (x ∷ xs) = insert_sorted x (sorted xs)

insert_sorted-perm : (x : Text) (xs : List Text) → Perm (insert_sorted x xs) (x ∷ xs)
unfolding insert_sorted
insert_sorted-perm x [] = Perm.rfl
insert_sorted-perm x (y ∷ ys) = elim (Bool-cases (text_lt y x)) [
  | inl less ↦ rw less (Perm.trans (Perm.cons y (insert_sorted-perm x ys)) (Perm.swap x y ys))
  | inr not_less ↦ rw not_less Perm.rfl
]

pub sorted-perm : (xs : List Text) → Perm (sorted xs) xs
unfolding sorted
sorted-perm [] = Perm.rfl
sorted-perm (x ∷ xs) = Perm.trans (insert_sorted-perm x (sorted xs)) (Perm.cons x (sorted-perm xs))

module _ {ℓ} {B : Type ℓ} where
  -- The lists of all elements, one behind the other.
  unfoldable pub gather : (Text → List B) → List Text → List B
  gather f [] = []
  gather f (x ∷ xs) = f x ++ gather f xs

  pub append_swap : (xs ys zs : List B) → Perm (xs ++ (ys ++ zs)) (ys ++ (xs ++ zs))
  append_swap xs ys zs =
      rw (sym (append_assoc xs ys zs))
        (rw (sym (append_assoc ys xs zs)) (Perm.append_right zs (perm_append_comm xs ys)))

  gather-insert_sorted :
      (f : Text → List B) (x : Text) (xs : List Text)
      → Perm (gather f (insert_sorted x xs)) (f x ++ gather f xs)
  unfolding gather insert_sorted
  gather-insert_sorted f x [] = Perm.rfl
  gather-insert_sorted f x (y ∷ ys) = elim (Bool-cases (text_lt y x)) [
    | inl less ↦ rw less (
        Perm.trans (Perm.append_left (f y) (gather-insert_sorted f x ys))
          (append_swap (f y) (f x) (gather f ys)))
    | inr not_less ↦ rw not_less Perm.rfl
  ]

  pub gather-sorted :
      (f : Text → List B) (xs : List Text) → Perm (gather f (sorted xs)) (gather f xs)
  unfolding gather sorted
  gather-sorted f [] = Perm.rfl
  gather-sorted f (x ∷ xs) =
      Perm.trans (gather-insert_sorted f x (sorted xs))
        (Perm.append_left (f x) (gather-sorted f xs))
