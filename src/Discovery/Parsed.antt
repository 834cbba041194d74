-- ===== src/Discovery/Parsed.antt =====
-- The dependencies that `parse_package_xml` of roscope/indexer.py reads.
use roscope.Base.{
  ℕ, Text, chars, Bool, false, ◌&&◌, ◌||◌, List, [], ◌∷◌, some, return, ◌≡◌, refl, sym, ◌∙◌, arith,
  ◌↔◌, ◌⊎◌, Option, none, Result, raise, true, strip, inl, inr, Bool-cases, text_eq, text_eq_iff,
  contains_text, TextMem, contains_text_iff, contains_text-occurrences, occurrences-sorted, sorted,
}
use roscope.Indexer.{Dependencies}
use roscope.Indexer.Order.Counts.{contains_text-snoc}
use roscope.Condition.{evaluate_condition}
use roscope.Condition.Lex.{Error}
use roscope.Discovery.Xml.{
  unless_error, Child, Reader, PackageInfo, add_new, text_of, is_included, add_tag, with_depend,
  dependencies_of, parse_package_xml, find_name,
}

pub contains_text-sorted :
    (xs : List Text) (x : Text) → contains_text (sorted xs) x ≡ contains_text xs x
contains_text-sorted xs x =
    contains_text-occurrences x (sorted xs)
    ∙ rw (occurrences-sorted x xs) (sym (contains_text-occurrences x xs))

abbrev is_name : Text → Text → Bool
is_name [] d = false
is_name (c ∷ name) d = text_eq (c ∷ name) d

is_name-empty : (name : Text) → is_name name [] ≡ false
unfolding text_eq
is_name-empty [] = refl
is_name-empty (c ∷ name) = refl

contains_text-add_new :
    (name d : Text) (names : List Text)
    → contains_text (add_new name names) d ≡ (contains_text names d || is_name name d)
contains_text-add_new [] d names = ground arith
contains_text-add_new (c ∷ name) d names = elim (Bool-cases (contains_text names (c ∷ name))) [
  | inl old ↦ rw old (ground (arith, text_eq_iff (c ∷ name) d))
  | inr new ↦ rw new (contains_text-snoc names (c ∷ name) d)
]

or_iff : (a b : Bool) {A B : Type 0} → (a ≡ true) ↔ A → (b ≡ true) ↔ B → ((a || b) ≡ true) ↔ (A ⊎ B)
or_iff true b ha hb = (λ h. inl (ha.0 refl), λ h. refl)
or_iff false b ha hb =
    (λ h. inr (hb.0 h), λ s. elim s [ inl x ↦ absurd (false_true (ha.1 x)) | inr y ↦ hb.1 y ])
  where
    false_true : false ≡ true → ⊥
    false_true e = cc

and_iff :
    (a b : Bool) {A B : Type 0} → (a ≡ true) ↔ A → (b ≡ true) ↔ B → ((a && b) ≡ true) ↔ (A × B)
and_iff true b ha hb = (λ h. (ha.0 refl, hb.0 h), λ x. hb.1 x.1)
and_iff false b ha hb = (λ h. cc, λ x. ha.1 x.0)

module _ (r : Reader) where
  -- An element with one of two tags, a condition that holds, and the name.
  abbrev pub is_named : Text → Text → Text → Child → Bool
  is_named tag other d el =
      (text_eq el.tag tag || text_eq el.tag other)
      && (is_included r el.condition && is_name (text_of r el.text) d)

  abbrev pub is_named_in : Text → Text → Text → List Child → Bool
  is_named_in tag other d [] = false
  is_named_in tag other d (el ∷ children) =
      is_named tag other d el || is_named_in tag other d children

  contains_text-add_tag :
      (tag d : Text) (children : List Child) (names : List Text)
      → contains_text (add_tag r tag children names) d
        ≡ (contains_text names d || is_named_in tag tag d children)
  unfolding add_tag
  contains_text-add_tag tag d [] names = ground arith
  contains_text-add_tag tag d (el ∷ children) names =
      contains_text-add_tag tag d children _
      ∙ ground (arith, contains_text-add_new (text_of r el.text) d names)

  is_named_in-both :
      (tag other d : Text) (children : List Child)
      → (is_named_in tag tag d children || is_named_in other other d children)
        ≡ is_named_in tag other d children
  is_named_in-both tag other d [] = refl
  is_named_in-both tag other d (el ∷ children) =
      ground (arith, is_named_in-both tag other d children)

  with_depend-names :
      (tag d : Text) (children : List Child)
      → contains_text (sorted (with_depend r tag children)) d
        ≡ is_named_in tag (chars "depend") d children
  unfolding contains_text
  with_depend-names tag d children =
      contains_text-sorted _ d
      ∙ contains_text-add_tag (chars "depend") d children _
      ∙ rw (contains_text-add_tag tag d children [])
          (is_named_in-both tag (chars "depend") d children)

  tag-names :
      (tag d : Text) (children : List Child)
      → contains_text (sorted (add_tag r tag children [])) d ≡ is_named_in tag tag d children
  unfolding contains_text
  tag-names tag d children = contains_text-sorted _ d ∙ contains_text-add_tag tag d children []

  -- The condition of an element does not exclude it: it has none, or one that is true, or one that
  -- cannot be evaluated.
  abbrev pub Counts : Option Text → Type 0
  Counts none = Unit
  Counts (some cond) =
      (evaluate_condition r.unicode r.env_lookup cond ≡ return true)
      ⊎ ((e : Error) × (evaluate_condition r.unicode r.env_lookup cond ≡ raise e))

  -- The text of an element, without the spaces around it, is the name.
  abbrev pub Names : Option Text → Text → Type 0
  Names none d = ⊥
  Names (some t) d = strip r.unicode t ≡ d

  -- An element with one of two tags that counts and names `d`.
  abbrev pub IsFor : Text → Text → Text → Child → Type 0
  IsFor tag other d el =
      ((el.tag ≡ tag) ⊎ (el.tag ≡ other)) × (Counts el.condition × Names el.text d)

  abbrev pub SomeFor : Text → Text → Text → List Child → Type 0
  SomeFor tag other d [] = ⊥
  SomeFor tag other d (el ∷ children) = IsFor tag other d el ⊎ SomeFor tag other d children

  is_included_iff : (cond : Option Text) → (is_included r cond ≡ true) ↔ Counts cond
  unfolding is_included
  is_included_iff none = (λ h. tt, λ h. refl)
  is_included_iff (some cond) = by_result (evaluate_condition r.unicode r.env_lookup cond)
    where
      by_result :
          (v : Result Error Bool)
          → (unless_error v ≡ true) ↔ ((v ≡ return true) ⊎ ((e : Error) × (v ≡ raise e)))
      by_result (raise e) = (λ h. inr (e, refl), λ h. refl)
      by_result (return true) = (λ h. inl refl, λ h. refl)
      by_result (return false) = (λ h. cc, λ h. absurd (never h))
        where
          never :
              (◌≡◌ {A = Result Error Bool} (return false) (return true))
                ⊎ ((e : Error) × (◌≡◌ {A = Result Error Bool} (return false) (raise e)))
              → ⊥
          never (inl h) = cc
          never (inr (e, h)) = cc

  is_name_iff :
      (t : Option Text) (c : ℕ) (d : Text)
      → (is_name (text_of r t) (c ∷ d) ≡ true) ↔ Names t (c ∷ d)
  unfolding text_of
  is_name_iff none c d = (λ h. cc, λ h. absurd h)
  is_name_iff (some t) c d = same (strip r.unicode t)
    where
      same : (name : Text) → (is_name name (c ∷ d) ≡ true) ↔ (name ≡ c ∷ d)
      same [] = (λ h. cc, λ h. cc)
      same (x ∷ name) = text_eq_iff (x ∷ name) (c ∷ d)

  is_named_iff :
      (tag other : Text) (c : ℕ) (d : Text) (el : Child)
      → (is_named tag other (c ∷ d) el ≡ true) ↔ IsFor tag other (c ∷ d) el
  is_named_iff tag other c d el =
      and_iff _ _ (or_iff _ _ (text_eq_iff el.tag tag) (text_eq_iff el.tag other))
        (and_iff _ _ (is_included_iff el.condition) (is_name_iff el.text c d))

  some_named_iff :
      (tag other : Text) (c : ℕ) (d : Text) (children : List Child)
      → (is_named_in tag other (c ∷ d) children ≡ true) ↔ SomeFor tag other (c ∷ d) children
  some_named_iff tag other c d [] = (λ h. cc, λ h. absurd h)
  some_named_iff tag other c d (el ∷ children) =
      or_iff _ _ (is_named_iff tag other c d el) (some_named_iff tag other c d children)

  -- A list has exactly the names of the elements with one of two tags that count. No name is empty.
  abbrev pub ListsNames : Text → Text → List Child → List Text → Type 0
  ListsNames tag other children names =
      (contains_text names [] ≡ false)
      × ((c : ℕ) (d : Text) → TextMem (c ∷ d) names ↔ SomeFor tag other (c ∷ d) children)

  no_empty_name :
      (tag other : Text) (children : List Child) → is_named_in tag other [] children ≡ false
  no_empty_name tag other [] = refl
  no_empty_name tag other (el ∷ children) =
      ground (arith, no_empty_name tag other children, is_name-empty (text_of r el.text))

  ListsNames-of :
      (tag other : Text) (children : List Child) (names : List Text)
      → ((d : Text) → contains_text names d ≡ is_named_in tag other d children)
      → ListsNames tag other children names
  ListsNames-of tag other children names h = (
    h [] ∙ no_empty_name tag other children,
    λ c d. (
      λ m.
          (some_named_iff tag other c d children).0
            (sym (h (c ∷ d)) ∙ (contains_text_iff names (c ∷ d)).1 m),
      λ x.
          (contains_text_iff names (c ∷ d)).0
            (h (c ∷ d) ∙ (some_named_iff tag other c d children).1 x),
    ),
  )

  -- Each list of dependencies has exactly the names of the elements of its tags.
  abbrev pub HasNamesOf : List Child → Dependencies → Type 0
  HasNamesOf children deps =
      ListsNames (chars "build_depend") (chars "depend") children deps.build
      × ListsNames (chars "build_export_depend") (chars "depend") children deps.build_export
      × ListsNames (chars "exec_depend") (chars "depend") children deps.exec
      × ListsNames (chars "buildtool_depend") (chars "buildtool_depend") children deps.buildtool
      × ListsNames (chars "buildtool_export_depend") (chars "buildtool_export_depend") children
          deps.buildtool_export
      × ListsNames (chars "test_depend") (chars "test_depend") children deps.test

  -- A package.xml whose name is not empty is read, and each list of its dependencies has exactly the
  -- names that are not empty of the elements of its tag with a condition that is true, missing or
  -- invalid; the lists for building, exporting and running have those of `<depend>` too.
  pub parse_package_xml-names :
      (content path name : Text) (c : ℕ) (children : List Child)
      → r.parse content ≡ some children
      → find_name r children ≡ some (c ∷ name)
      → (info : PackageInfo) × (parse_package_xml r content path ≡ return info)
        × (info.name ≡ c ∷ name)
        × HasNamesOf children info.dependencies
  unfolding parse_package_xml dependencies_of
  parse_package_xml-names content path name c children parsed named = (
    record { name = c ∷ name; path = path; dependencies = dependencies_of r children },
    rw parsed (rw named refl),
    refl,
    (
      ListsNames-of _ _ children _ (λ d. with_depend-names (chars "build_depend") d children),
      ListsNames-of _ _ children _
          (λ d. with_depend-names (chars "build_export_depend") d children),
      ListsNames-of _ _ children _ (λ d. with_depend-names (chars "exec_depend") d children),
      ListsNames-of _ _ children _ (λ d. tag-names (chars "buildtool_depend") d children),
      ListsNames-of _ _ children _ (λ d. tag-names (chars "buildtool_export_depend") d children),
      ListsNames-of _ _ children _ (λ d. tag-names (chars "test_depend") d children),
    ),
  )
