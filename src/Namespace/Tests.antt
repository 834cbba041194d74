-- ===== src/Namespace/Tests.antt =====
-- Runs of the namespace functions, and the theorems about them at concrete inputs.
use roscope.Base.{
  ◌≡◌, ◌≢◌, ◌↔◌, refl, arith, true, false, none, some, [], ◌∷◌, chars, text_eq, rstrip,
}
use roscope.Namespace
use roscope.Namespace.{
  is_absolute, truthy, root, prefix_namespace, make_namespace_absolute, expand_connection_name,
  expand_private, expand_relative,
}
use roscope.Namespace.Types
use roscope.Namespace.Absolute.{
  IsCanonical, IsCanonicalOr, effective_namespace-IsCanonical, effective_namespace-reset,
  expand_connection_name_idem,
}
use roscope.Namespace.Agree.{HasSegment, effective_namespace_agrees, join_slashes_differ}

stack_of_two :
    Namespace.effective_namespace (chars "ns1" ∷ chars "ns2/" ∷ []) none ≡ some (chars "/ns1/ns2")
unfolding Namespace.effective_namespace Namespace.join_all Namespace.ros2_namespace_join
    prefix_namespace make_namespace_absolute text_eq rstrip
stack_of_two = refl

private_name :
    expand_connection_name (chars "~/cmd") (some (chars "/a/")) (some (chars "n"))
    ≡ chars "/a/n/cmd"
unfolding expand_connection_name expand_private rstrip
private_name = refl

effective_namespace-IsCanonical_example :
    IsCanonicalOr (Namespace.effective_namespace (chars "a" ∷ []) (some (chars "b/")))
    × ((Namespace.effective_namespace (chars "a" ∷ []) (some (chars "b/")) ≡ none)
        ↔ ((◌≡◌ {A = _} (chars "a" ∷ []) []) × (truthy (some (chars "b/")) ≡ false)))
effective_namespace-IsCanonical_example =
    effective_namespace-IsCanonical (chars "a" ∷ []) (some (chars "b/"))

effective_namespace-reset_example :
    Namespace.effective_namespace (chars "a" ∷ chars "/b" ∷ chars "c" ∷ []) none
    ≡ Namespace.effective_namespace (chars "/b" ∷ chars "c" ∷ []) none
effective_namespace-reset_example =
    effective_namespace-reset (chars "a" ∷ []) (chars "/b") (chars "c" ∷ []) none refl

expand_connection_name_idem_example :
    (is_absolute (expand_connection_name (chars "~/cmd") (some (chars "/a")) (some (chars "n")))
      ≡ true)
    × (expand_connection_name
          (expand_connection_name (chars "~/cmd") (some (chars "/a")) (some (chars "n")))
          none
          none
        ≡ expand_connection_name (chars "~/cmd") (some (chars "/a")) (some (chars "n")))
expand_connection_name_idem_example =
    expand_connection_name_idem (chars "~/cmd") (some (chars "/a")) (some (chars "n")) none none
      refl

segment_b : HasSegment (chars "b/")
unfolding rstrip
segment_b = record { first = b'b'; rest = []; kept = refl }

effective_namespace_agrees_example :
    Namespace.effective_namespace (chars "b/" ∷ []) (some (chars "b/"))
    ≡ Types.effective_namespace (chars "b/" ∷ []) (some (chars "b/"))
effective_namespace_agrees_example =
    effective_namespace_agrees (chars "b/" ∷ []) (some (chars "b/")) (segment_b, tt) segment_b

IsCanonical-a : IsCanonical (chars "/a")
IsCanonical-a = record { absolute = refl; trimmed = ground arith }

join_slashes_differ_example :
    (Namespace.ros2_namespace_join (some (chars "/a")) (some (chars "//")) ≡ some root)
    × (Types.ros2_namespace_join (some (chars "/a")) (chars "//") ≡ some (chars "/a"))
    × (Namespace.ros2_namespace_join (some (chars "/a")) (some (chars "//"))
        ≢ Types.ros2_namespace_join (some (chars "/a")) (chars "//"))
unfolding rstrip
join_slashes_differ_example =
    join_slashes_differ (chars "/a") (chars "/") IsCanonical-a (λ e. cc) refl
