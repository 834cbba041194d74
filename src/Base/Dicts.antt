-- ===== src/Base/Dicts.antt =====
-- Python's `dict` with text keys: an association list in insertion order.
use mathlib.Core.Path.{◌≡◌, refl, ◌∙◌}
use mathlib.Core.Logic.{inl, inr}
use mathlib.Core.Bool.{Bool, true, false, ◌||◌}
use mathlib.Core.Option.{Option, none, some}
use mathlib.Core.List.{List, [], ◌∷◌}
use native.Mathlib.Omega.{arith}
use roscope.Base.Tests.{if◌then◌else◌, Bool-cases}
use roscope.Base.Texts.{Text, text_eq, text_eq_iff, text_eq_comm, contains_text, TextMem}

abbrev pub Dict {ℓ} : Type ℓ → Type ℓ
Dict V = List (Text × V)

abbrev pub is_some {ℓ} : {A : Type ℓ} → Option A → Bool
is_some none = false
is_some (some a) = true

module _ {ℓ} {V : Type ℓ} where
  -- `d.get(k)`
  unfoldable pub lookup : Text → Dict V → Option V
  lookup k [] = none
  lookup k ((j, v) ∷ d) = if text_eq j k then some v else lookup k d

  -- `d[k] = v`: an old key keeps its place
  unfoldable pub insert : Text → V → Dict V → Dict V
  insert k v [] = (k, v) ∷ []
  insert k v ((j, w) ∷ d) = if text_eq j k then (j, v) ∷ d else (j, w) ∷ insert k v d

  -- `d.pop(k, None)`
  unfoldable pub remove : Text → Dict V → Dict V
  remove k [] = []
  remove k ((j, v) ∷ d) = let rest = remove k d in if text_eq j k then rest else (j, v) ∷ rest

  unfoldable pub keys : Dict V → List Text
  keys [] = []
  keys ((j, v) ∷ d) = j ∷ keys d

  pub lookup-insert :
      (k j : Text) (v : V) (d : Dict V)
      → lookup j (insert k v d) ≡ (if text_eq k j then some v else lookup j d)
  unfolding lookup insert
  lookup-insert k j v [] = refl
  lookup-insert k j v ((i, w) ∷ d) =
      ground (arith, text_eq_iff k j, text_eq_iff i k, text_eq_iff i j, lookup-insert k j v d)

  pub lookup-remove :
      (k j : Text) (d : Dict V) → lookup j (remove k d) ≡ (if text_eq k j then none else lookup j d)
  unfolding lookup remove
  lookup-remove k j [] = ground arith
  lookup-remove k j ((i, w) ∷ d) =
      ground (arith, text_eq_iff k j, text_eq_iff i k, text_eq_iff i j, lookup-remove k j d)

  pub lookup-mem : (k : Text) (v : V) (d : Dict V) → lookup k d ≡ some v → TextMem k (keys d)
  unfolding lookup keys
  lookup-mem k v [] e = absurd (cc)
  lookup-mem k v ((i, w) ∷ d) e = elim (Bool-cases (text_eq i k)) [
    | inl same ↦ inl ((text_eq_iff i k).0 same)
    | inr other ↦ inr (lookup-mem k v d (rw other at e))
  ]

  pub mem-lookup : (k : Text) (d : Dict V) → TextMem k (keys d) → (v : V) × (lookup k d ≡ some v)
  unfolding lookup keys
  mem-lookup k [] m = absurd m
  mem-lookup k ((i, w) ∷ d) m = elim (Bool-cases (text_eq i k)) [
    | inl same ↦ (w, rw same)
    | inr other ↦ let r = mem-lookup k d (tail_of other m) in (r.0, rw other r.1)
  ]
    where
      tail_of : text_eq i k ≡ false → TextMem k (keys ((i, w) ∷ d)) → TextMem k (keys d)
      tail_of other m' = ground (arith, text_eq_iff i k)

module _ {ℓ} {V : Type ℓ} where
  -- No key comes twice.
  abbrev pub HasUniqueKeys : Dict V → Type 0
  HasUniqueKeys [] = Unit
  HasUniqueKeys ((j, v) ∷ d) = (contains_text (keys d) j ≡ false) × HasUniqueKeys d

  pub contains_text-keys-insert :
      (k j : Text) (v : V) (d : Dict V)
      → contains_text (keys (insert k v d)) j ≡ (text_eq k j || contains_text (keys d) j)
  unfolding keys insert contains_text
  contains_text-keys-insert k j v [] = refl
  contains_text-keys-insert k j v ((i, w) ∷ d) =
      ground (
        arith,
        text_eq_iff k j,
        text_eq_iff i k,
        text_eq_iff i j,
        contains_text-keys-insert k j v d,
      )

  pub insert-HasUniqueKeys :
      (k : Text) (v : V) (d : Dict V) → HasUniqueKeys d → HasUniqueKeys (insert k v d)
  unfolding keys insert contains_text
  insert-HasUniqueKeys k v [] h = (refl, tt)
  insert-HasUniqueKeys k v ((i, w) ∷ d) h = elim (Bool-cases (text_eq i k)) [
    | inl same ↦ rw same h
    | inr other ↦
        rw other
          ((contains_text-keys-insert k i v d ∙ by_parts other h.0), insert-HasUniqueKeys k v d h.1)
  ]
    where
      by_parts :
          text_eq i k ≡ false
          → contains_text (keys d) i ≡ false
          → (text_eq k i || contains_text (keys d) i) ≡ false
      by_parts other absent = ground (arith, text_eq_comm i k)

pub ruleset dict_laws = (lookup-insert, lookup-remove)
