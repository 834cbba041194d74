-- ===== src/Namespace/Absolute.antt =====
-- The shape of the namespaces and names of roscope/entities/utilities/namespace_utils.py and
-- roscope/entities/helpers.py.
use roscope.Base.{
  ℕ, Text, ◌⊎◌, ◌↔◌, ◌≡◌, ◌||◌, ◌&&◌, not, refl, ap, true, false, Option, none, some, List, [], ◌∷◌,
  ◌++◌, arith, ends_with, rstrip, text_eq_iff, Bool-cases, inl, inr, ends_with-rstrip,
}
use roscope.Namespace.{
  slash, root, is_absolute, truthy, make_namespace_absolute, strip_combined, prefix_namespace,
  ros2_namespace_join, join_all, effective_namespace, expand_private, expand_relative,
  expand_connection_name, combine, namespace_base, private_suffix,
}

-- Absolute, and with no slash at the end unless it is the root.
pub record IsCanonical (ns : Text) : Type 0 where
  pub absolute : is_absolute ns ≡ true
  pub trimmed : (ns ≡ root) ⊎ (ends_with slash ns ≡ false)

abbrev pub IsCanonicalOr : Option Text → Type 0
IsCanonicalOr none = Unit
IsCanonicalOr (some ns) = IsCanonical ns

strip_combined_trims :
    (s : Text) → (strip_combined s ≡ root) ⊎ (ends_with slash (strip_combined s) ≡ false)
strip_combined_trims s = ground (arith, ends_with-rstrip slash s, text_eq_iff s root)

absolute-IsCanonical :
    (t : Text)
    → (t ≡ root) ⊎ (ends_with slash t ≡ false)
    → (r : Text) × (make_namespace_absolute (some t) ≡ some r) × IsCanonical r
unfolding make_namespace_absolute
absolute-IsCanonical [] k = (root, refl, record { absolute = refl; trimmed = inl refl })
absolute-IsCanonical (c ∷ t) k = elim (Bool-cases (is_absolute (c ∷ t))) [
  | inl e ↦ (c ∷ t, rw e, record { absolute = e; trimmed = k })
  | inr e ↦ (slash ∷ c ∷ t, rw e, record { absolute = refl; trimmed = ground arith })
]

prefix_namespace-eq_strip :
    (base : Option Text) (ns : Text)
    → (t : Text) × (prefix_namespace base (some ns) ≡ some (strip_combined t))
unfolding prefix_namespace
prefix_namespace-eq_strip none ns = (ns, refl)
prefix_namespace-eq_strip (some base) ns =
    elim (Bool-cases (not (truthy (some base)) || truthy (some ns) && is_absolute ns)) [
      | inl e ↦ (ns, rw e)
      | inr e ↦ (combine base ns, rw e)
    ]

-- Joining a component to any base gives a namespace, and that is absolute, with no slash at its end
-- unless it is the root.
ros2_namespace_join-IsCanonical :
    (base : Option Text) (ns : Text)
    → (r : Text) × (ros2_namespace_join base (some ns) ≡ some r) × IsCanonical r
unfolding ros2_namespace_join
ros2_namespace_join-IsCanonical base ns =
    let (t, e) = prefix_namespace-eq_strip base ns in
    rw e (absolute-IsCanonical (strip_combined t) (strip_combined_trims t))

pub join_some-IsCanonical :
    (base : Option Text) (ns : Text) → IsCanonicalOr (ros2_namespace_join base (some ns))
join_some-IsCanonical base ns = let (r, e, k) = ros2_namespace_join-IsCanonical base ns in rw e k

pub join_all-IsCanonical :
    (current : Option Text) (stack : List Text)
    → IsCanonicalOr current
    → IsCanonicalOr (join_all current stack)
unfolding join_all
join_all-IsCanonical current [] k = k
join_all-IsCanonical current (c ∷ stack) k =
    join_all-IsCanonical (ros2_namespace_join current (some c)) stack
      (join_some-IsCanonical current c)

join_all-ne_none : (r : Text) (stack : List Text) → join_all (some r) stack ≡ none → ⊥
unfolding join_all
join_all-ne_none r [] e = cc
join_all-ne_none r (c ∷ stack) e =
    let (r', e', k) = ros2_namespace_join-IsCanonical (some r) c in
    join_all-ne_none r' stack (rw e' at e)

-- The namespace of a stack and an explicit name is absolute, with no slash at its end unless it is
-- the root, and there is none exactly when the stack is empty and the explicit name is missing or empty.
pub effective_namespace-IsCanonical :
    (stack : List Text) (explicit_ns : Option Text)
    → IsCanonicalOr (effective_namespace stack explicit_ns)
      × ((effective_namespace stack explicit_ns ≡ none)
          ↔ ((stack ≡ []) × (truthy explicit_ns ≡ false)))
unfolding effective_namespace join_all
effective_namespace-IsCanonical [] none = (tt, (λ _. (refl, refl), λ _. refl))
effective_namespace-IsCanonical [] (some []) = (tt, (λ _. (refl, refl), λ _. refl))
effective_namespace-IsCanonical stack (some (c ∷ ns)) =
    let (r, e, k) = ros2_namespace_join-IsCanonical (join_all none stack) (c ∷ ns) in
    (join_some-IsCanonical (join_all none stack) (c ∷ ns), (λ h. cc, λ h. cc))
effective_namespace-IsCanonical (c ∷ stack) explicit_ns =
    let (r, e, k) = ros2_namespace_join-IsCanonical none c in
    (
      join_all-IsCanonical (ros2_namespace_join none (some c)) stack (join_some-IsCanonical none c),
      (λ h. absurd (join_all-ne_none r stack (rw e at h)), λ h. cc (h.0)),
    )

join-absolute :
    (base : Option Text) (a : Text)
    → is_absolute a ≡ true
    → ros2_namespace_join base (some a) ≡ ros2_namespace_join none (some a)
unfolding ros2_namespace_join prefix_namespace
join-absolute none a h = refl
join-absolute (some base) [] h = cc
join-absolute (some base) (c ∷ a) h = ground arith

join_all-append :
    (current : Option Text) (xs ys : List Text)
    → join_all current (xs ++ ys) ≡ join_all (join_all current xs) ys
unfolding join_all
join_all-append current [] ys = refl
join_all-append current (x ∷ xs) ys = join_all-append (ros2_namespace_join current (some x)) xs ys

-- An absolute component of the stack makes everything before it irrelevant.
pub effective_namespace-reset :
    (xs : List Text) (a : Text) (ys : List Text) (explicit_ns : Option Text)
    → is_absolute a ≡ true
    → effective_namespace (xs ++ a ∷ ys) explicit_ns ≡ effective_namespace (a ∷ ys) explicit_ns
unfolding effective_namespace
effective_namespace-reset xs a ys explicit_ns h =
    rw (join_all-append none xs (a ∷ ys))
      (unfold join_all in rw (join-absolute (join_all none xs) a h))

abbrev pub IsRooted : Option Text → Type 0
IsRooted none = Unit
IsRooted (some ns) = is_absolute ns ≡ true

rstrip_absolute :
    (ns : Text) {c : ℕ} {r : Text} → is_absolute ns ≡ true → rstrip slash ns ≡ c ∷ r → c ≡ slash
unfolding rstrip
rstrip_absolute [] h e = cc
rstrip_absolute (x ∷ ns) h e = ground arith

namespace_base-absolute :
    (node_ns : Option Text)
    → IsRooted node_ns
    → (namespace_base node_ns ≡ []) ⊎ ((r : Text) × (namespace_base node_ns ≡ slash ∷ r))
namespace_base-absolute none h = inl refl
namespace_base-absolute (some ns) h = go (rstrip slash ns) refl
  where
    go : (t : Text) → rstrip slash ns ≡ t → (t ≡ []) ⊎ ((r : Text) × (t ≡ slash ∷ r))
    go [] e = inl refl
    go (c ∷ r) e = inr (r, ap (λ (d : ℕ). d ∷ r) (rstrip_absolute ns h e))

expand_private-absolute :
    (ns : Text) (node_name : Option Text) (suffix : Text)
    → (ns ≡ []) ⊎ ((r : Text) × (ns ≡ slash ∷ r))
    → is_absolute (expand_private ns node_name suffix) ≡ true
unfolding expand_private
expand_private-absolute [] none suffix h = refl
expand_private-absolute [] (some []) suffix h = refl
expand_private-absolute [] (some (d ∷ name)) suffix h = refl
expand_private-absolute (c ∷ ns) none suffix h = refl
expand_private-absolute (c ∷ ns) (some []) suffix h = refl
expand_private-absolute (c ∷ ns) (some (d ∷ name)) suffix h = ground arith

expand_relative-absolute :
    (ns name : Text)
    → (ns ≡ []) ⊎ ((r : Text) × (ns ≡ slash ∷ r))
    → is_absolute (expand_relative ns name) ≡ true
unfolding expand_relative
expand_relative-absolute [] name h = refl
expand_relative-absolute (c ∷ ns) name h = ground arith

expand_connection_name-absolute :
    (name : Text) (node_ns node_name : Option Text)
    → IsRooted node_ns
    → is_absolute (expand_connection_name name node_ns node_name) ≡ true
unfolding expand_connection_name
expand_connection_name-absolute name node_ns node_name h = elim (Bool-cases (is_absolute name)) [
  | inl e ↦ rw e e
  | inr e ↦ rw e (go (private_suffix name))
]
  where
    go :
        (o : Option Text)
        → is_absolute (elim o [
          | some suffix ↦ expand_private (namespace_base node_ns) node_name suffix
          | none ↦ expand_relative (namespace_base node_ns) name
        ])
          ≡ true
    go none =
        expand_relative-absolute (namespace_base node_ns) name (namespace_base-absolute node_ns h)
    go (some suffix) =
        expand_private-absolute (namespace_base node_ns) node_name suffix
          (namespace_base-absolute node_ns h)

expand_absolute :
    (name : Text) (node_ns node_name : Option Text)
    → is_absolute name ≡ true
    → expand_connection_name name node_ns node_name ≡ name
unfolding expand_connection_name
expand_absolute name node_ns node_name h = rw h

-- For a node whose namespace is absolute or unknown, every connection name expands to an absolute
-- name, and expanding the result again, for any node, changes nothing.
pub expand_connection_name_idem :
    (name : Text) (node_ns node_name other_ns other_name : Option Text)
    → IsRooted node_ns
    → (is_absolute (expand_connection_name name node_ns node_name) ≡ true)
      × (expand_connection_name (expand_connection_name name node_ns node_name) other_ns other_name
          ≡ expand_connection_name name node_ns node_name)
expand_connection_name_idem name node_ns node_name other_ns other_name h =
    let e = expand_connection_name-absolute name node_ns node_name h in
    (e, expand_absolute (expand_connection_name name node_ns node_name) other_ns other_name e)
