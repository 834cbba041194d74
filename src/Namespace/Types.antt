-- ===== src/Namespace/Types.antt =====
-- The namespace helpers of roscope/types.py.
use roscope.Base.{
  Text, Option, none, some, List, [], ◌∷◌, ◌++◌, if◌then◌else◌, rstrip, text_eq, ◌||◌, Bool, true,
}
use roscope.Namespace.{slash, root, is_absolute}

-- `base is None or base in ("", "/")`
abbrev pub is_root_base : Option Text → Bool
is_root_base none = true
is_root_base (some base) = text_eq base [] || text_eq base root

abbrev pub base_text : Option Text → Text
base_text none = []
base_text (some base) = base

-- The returns behind the empty test, of a component with the slashes at its end taken off.
abbrev pub join_stripped : Option Text → Text → Option Text
join_stripped base [] = base
join_stripped base (c ∷ ns) =
    if is_absolute (c ∷ ns)
    then some (c ∷ ns)
    else if is_root_base base
    then some (slash ∷ c ∷ ns)
    else some (rstrip slash (base_text base) ++ (slash ∷ c ∷ ns))

unfoldable pub ros2_namespace_join : Option Text → Text → Option Text
ros2_namespace_join base next_ns = join_stripped base (rstrip slash next_ns)

unfoldable pub join_all : Option Text → List Text → Option Text
join_all current [] = current
join_all current (component ∷ stack) = join_all (ros2_namespace_join current component) stack

unfoldable pub effective_namespace : List Text → Option Text → Option Text
unfolding join_all
effective_namespace stack none = join_all none stack
effective_namespace stack (some node_ns) = ros2_namespace_join (join_all none stack) node_ns
