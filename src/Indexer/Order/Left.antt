-- ===== src/Indexer/Order/Left.antt =====
-- The dependencies of a package that the loop of `compute_build_order` in roscope/indexer.py has not
-- put in order yet, and the orders in which there are none.
use roscope.Base.{
  ℕ, ◌+◌, Text, List, [], ◌∷◌, ◌++◌, Bool, not, ◌&&◌, ◌≡◌, refl, sym, arith, inl, inr, Bool-cases,
  contains_text, text_eq, text_eq_iff, append-nil, append_assoc, bit, occurrences,
  contains_text-occurrences,
}
use roscope.Indexer.Order.Counts.{contains_text-snoc}

module _ (packages : List Text) where
  abbrev pub is_left : List Text → Text → Bool
  is_left done d = contains_text packages d && not (contains_text done d)

  -- How many of the names are packages that are not done.
  unfoldable pub left : List Text → List Text → ℕ
  left done [] = 0
  left done (d ∷ deps) = bit (is_left done d) + left done deps

  bit-is_left :
      (d e : Text) (done : List Text)
      → occurrences d packages ≡ 1
      → occurrences d done ≡ 0
      → bit (is_left done e) ≡ bit (is_left (done ++ d ∷ []) e) + bit (text_eq e d)
  bit-is_left d e done locked undone =
      rw (contains_text-snoc done d e) (elim (Bool-cases (text_eq d e)) [
        | inl same ↦ rw (sym ((text_eq_iff d e).0 same)) (
            rw (contains_text-occurrences d packages) (
              rw (contains_text-occurrences d done)
                (rw locked (rw undone (rw ((text_eq_iff d d).1 refl) refl)))))
        | inr other ↦ ground (arith, text_eq_iff d e, text_eq_iff e d)
      ])

  -- A package that is done is no longer left, as often as it is named.
  pub left-snoc :
      (d : Text) (deps done : List Text)
      → occurrences d packages ≡ 1
      → occurrences d done ≡ 0
      → left done deps ≡ left (done ++ d ∷ []) deps + occurrences d deps
  unfolding left occurrences
  left-snoc d [] done locked undone = omega arith
  left-snoc d (e ∷ deps) done locked undone =
      omega (arith, bit-is_left d e done locked undone, left-snoc d deps done locked undone)

  module _ (deps_of : Text → List Text) where
    -- Behind the packages that are done, no package of a list comes before one that it needs.
    abbrev pub IsOrdered : List Text → List Text → Type 0
    IsOrdered done [] = Unit
    IsOrdered done (pkg ∷ rest) = (left done (deps_of pkg) ≡ 0) × IsOrdered (done ++ pkg ∷ []) rest

    pub IsOrdered-snoc :
        (pkg : Text) (done rest : List Text)
        → IsOrdered done rest
        → left (done ++ rest) (deps_of pkg) ≡ 0
        → IsOrdered done (rest ++ pkg ∷ [])
    IsOrdered-snoc pkg done [] h free = (rw (sym (append-nil done)) free, tt)
    IsOrdered-snoc pkg done (first ∷ rest) h free = (
      h.0,
      IsOrdered-snoc pkg (done ++ first ∷ []) rest h.1
          (rw (append_assoc done (first ∷ []) rest) free),
    )
