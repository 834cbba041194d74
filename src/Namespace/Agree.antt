-- ===== src/Namespace/Agree.antt =====
-- The two namespace joins of the program, that of helpers.py and that of types.py, compared.
use roscope.Base.{
  ℕ, Text, ◌≡◌, ◌≢◌, refl, sym, ◌∙◌, Option, none, some, List, [], ◌∷◌, ◌++◌, arith, rstrip,
  text_eq, text_eq_iff, Bool-cases, inl, inr, All, rstrip-eq_self, rstrip-append,
}
use roscope.Namespace
use roscope.Namespace.{
  slash, root, is_absolute, truthy, make_namespace_absolute, strip_combined, prefix_namespace,
  combine,
}
use roscope.Namespace.Types
use roscope.Namespace.Absolute.{
  IsCanonical, IsCanonicalOr, join_some-IsCanonical, join_all-IsCanonical,
}

-- Something is left of a component when the slashes at its end are taken off.
pub record HasSegment (component : Text) : Type 0 where
  pub first : ℕ
  pub rest : Text
  pub kept : rstrip slash component ≡ first ∷ rest

rstrip_head :
    (c : Text) {d : ℕ} {r : Text} → rstrip slash c ≡ d ∷ r → is_absolute c ≡ is_absolute (d ∷ r)
unfolding rstrip
rstrip_head [] e = cc
rstrip_head (x ∷ c) e = ground arith

strip_combined-eq_rstrip : (c : Text) → rstrip slash c ≢ [] → strip_combined c ≡ rstrip slash c
unfolding rstrip text_eq
strip_combined-eq_rstrip [] n = refl
strip_combined-eq_rstrip (x ∷ []) n = ground arith
strip_combined-eq_rstrip (x ∷ y ∷ c) n = ground (arith, rstrip-eq_self slash (x ∷ y ∷ c))

strip_combined-kept :
    (c : Text) {d : ℕ} {r : Text} → rstrip slash c ≡ d ∷ r → strip_combined c ≡ d ∷ r
strip_combined-kept c e = strip_combined-eq_rstrip c (λ z. cc) ∙ e

append-cons-ne_nil : (b : Text) (x : ℕ) (c : Text) → b ++ x ∷ c ≢ []
append-cons-ne_nil [] x c e = cc
append-cons-ne_nil (y ∷ b) x c e = cc

rstrip-slash :
    (c : Text) {d : ℕ} {r : Text}
    → rstrip slash c ≡ d ∷ r
    → rstrip slash (slash ∷ c) ≡ slash ∷ d ∷ r
unfolding rstrip
rstrip-slash c e = rw e

-- Behind a base with no slash at its end the component is stripped alone.
strip_combined-joined :
    (b c : Text) {d : ℕ} {r : Text}
    → rstrip slash c ≡ d ∷ r
    → strip_combined (b ++ (slash ∷ c)) ≡ b ++ (slash ∷ d ∷ r)
strip_combined-joined b c {d} {r} e =
    let stripped = rstrip-append slash b (slash ∷ c) (rstrip-slash c e) ∙ rw (rstrip-slash c e) in
    strip_combined-eq_rstrip (b ++ slash ∷ c)
      (λ z. append-cons-ne_nil b slash (d ∷ r) (sym stripped ∙ z))
    ∙ stripped

join_agrees :
    (base : Option Text) (component : Text)
    → IsCanonicalOr base
    → HasSegment component
    → Namespace.ros2_namespace_join base (some component) ≡ Types.ros2_namespace_join base component
unfolding Namespace.ros2_namespace_join Types.ros2_namespace_join prefix_namespace
    make_namespace_absolute
join_agrees none c k h = rw (strip_combined-kept c h.kept, h.kept) (ground arith)
join_agrees (some []) c k h = cc (k.absolute)
join_agrees (some (x ∷ b)) c k h = elim (Bool-cases (is_absolute c)) [
  | inl abs ↦ ground (arith, strip_combined-kept c h.kept, rstrip_head c h.kept)
  | inr rel ↦ ground (
    arith,
    strip_combined-joined (x ∷ b) c h.kept,
    strip_combined-joined [] c h.kept,
    rstrip_head c h.kept,
    text_eq_iff (x ∷ b) root,
    text_eq_iff (x ∷ b) [],
    rstrip-eq_self slash (x ∷ b),
    k.absolute,
    k.trimmed,
  )
]

join_all_agrees :
    (current : Option Text) (stack : List Text)
    → IsCanonicalOr current
    → All HasSegment stack
    → Namespace.join_all current stack ≡ Types.join_all current stack
unfolding Namespace.join_all Types.join_all
join_all_agrees current [] k h = refl
join_all_agrees current (c ∷ stack) k h = rw (← join_agrees current c k h.0) (
    join_all_agrees (Namespace.ros2_namespace_join current (some c)) stack
      (join_some-IsCanonical current c) h.1)

abbrev pub HasSegmentOr : Option Text → Type 0
HasSegmentOr none = Unit
HasSegmentOr (some ns) = HasSegment ns

-- On stacks and explicit names in which every component has a character besides the slashes at its
-- end, the two implementations of the effective namespace agree.
pub effective_namespace_agrees :
    (stack : List Text) (explicit_ns : Option Text)
    → All HasSegment stack
    → HasSegmentOr explicit_ns
    → Namespace.effective_namespace stack explicit_ns ≡ Types.effective_namespace stack explicit_ns
unfolding Namespace.effective_namespace Types.effective_namespace rstrip
effective_namespace_agrees stack none h k = join_all_agrees none stack tt h
effective_namespace_agrees stack (some []) h k = cc (k.kept)
effective_namespace_agrees stack (some (c ∷ ns)) h k =
    rw (← join_all_agrees none stack tt h)
      (join_agrees (Namespace.join_all none stack) (c ∷ ns) (join_all-IsCanonical none stack tt) k)

strip_slashes :
    (s : Text)
    → rstrip slash (slash ∷ s) ≡ []
    → make_namespace_absolute (some (strip_combined (slash ∷ s))) ≡ some root
unfolding make_namespace_absolute
strip_slashes s e = ground (arith, text_eq_iff (slash ∷ s) root, rstrip-eq_self slash (slash ∷ s))

-- A component of slashes alone resets the namespace to the root in helpers.py, and leaves the base
-- as it was in types.py: below any canonical base but the root the two differ.
pub join_slashes_differ :
    (base s : Text)
    → IsCanonical base
    → base ≢ root
    → rstrip slash (slash ∷ s) ≡ []
    → (Namespace.ros2_namespace_join (some base) (some (slash ∷ s)) ≡ some root)
      × (Types.ros2_namespace_join (some base) (slash ∷ s) ≡ some base)
      × (Namespace.ros2_namespace_join (some base) (some (slash ∷ s))
          ≢ Types.ros2_namespace_join (some base) (slash ∷ s))
unfolding Namespace.ros2_namespace_join Types.ros2_namespace_join prefix_namespace
    make_namespace_absolute
join_slashes_differ [] s k n e = cc (k.absolute)
join_slashes_differ (x ∷ b) s k n e = ground (arith, strip_slashes s e)
