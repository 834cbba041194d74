-- ===== src/Namespace.antt =====
-- ROS namespaces: roscope/entities/utilities/namespace_utils.py, the namespace helpers of
-- roscope/entities/helpers.py, and the second join of roscope/types.py (`Types`).
pub mod Types
pub mod Absolute
pub mod Agree
mod Tests
use roscope.Base.{
  Text, ◌==◌, Bool, true, false, not, ◌&&◌, ◌||◌, Option, none, some, List, [], ◌∷◌, ◌++◌, ℕ,
  if◌then◌else◌, starts_with, ends_with, rstrip, text_eq,
}

abbrev pub slash : ℕ
slash = b'/'

abbrev pub root : Text
root = slash ∷ []

abbrev pub is_absolute : Text → Bool
is_absolute = starts_with root

-- The truth value of a text that may be `None`.
abbrev pub truthy : Option Text → Bool
truthy none = false
truthy (some []) = false
truthy (some (c ∷ s)) = true

unfoldable pub make_namespace_absolute : Option Text → Option Text
make_namespace_absolute none = none
make_namespace_absolute (some ns) = if not (is_absolute ns) then some (slash ∷ ns) else some ns

-- `combined.rstrip("/")`, but for the root
abbrev pub strip_combined : Text → Text
strip_combined s =
    if truthy (some s) && not (text_eq s root) && ends_with slash s then rstrip slash s else s

-- The `else` branch: `base_ns + "/" + ns`, where the base `/` counts as empty.
abbrev pub combine : Text → Text → Text
combine base ns = (if text_eq base root then [] else base) ++ (slash ∷ ns)

unfoldable pub prefix_namespace : Option Text → Option Text → Option Text
prefix_namespace none none = none
prefix_namespace (some base) none = some (strip_combined base)
prefix_namespace none (some ns) = some (strip_combined ns)
prefix_namespace (some base) (some ns) =
    if not (truthy (some base)) || truthy (some ns) && is_absolute ns
    then some (strip_combined ns)
    else some (strip_combined (combine base ns))

unfoldable pub ros2_namespace_join : Option Text → Option Text → Option Text
ros2_namespace_join base next_ns = make_namespace_absolute (prefix_namespace base next_ns)

-- The loop of `_effective_namespace` over the stack.
unfoldable pub join_all : Option Text → List Text → Option Text
join_all current [] = current
join_all current (component ∷ stack) = join_all (ros2_namespace_join current (some component)) stack

unfoldable pub effective_namespace : List Text → Option Text → Option Text
unfolding join_all
effective_namespace stack explicit_ns =
    let current = join_all none stack in
    if truthy explicit_ns then ros2_namespace_join current explicit_ns else current

-- `(node_ns or "").rstrip("/")`
abbrev pub namespace_base : Option Text → Text
namespace_base none = []
namespace_base (some ns) = rstrip slash ns

-- A name `~/suffix` of a node, by the cases of the inner returns.
unfoldable pub expand_private : Text → Option Text → Text → Text
expand_private (c ∷ ns) (some (d ∷ name)) suffix =
    (c ∷ ns) ++ (slash ∷ (d ∷ name) ++ (slash ∷ suffix))
expand_private [] (some (d ∷ name)) suffix = slash ∷ (d ∷ name) ++ (slash ∷ suffix)
expand_private _ _ suffix = slash ∷ suffix

unfoldable pub expand_relative : Text → Text → Text
expand_relative [] name = slash ∷ name
expand_relative (c ∷ ns) name = (c ∷ ns) ++ (slash ∷ name)

-- The text behind the two characters `~/`.
abbrev pub private_suffix : Text → Option Text
private_suffix [] = none
private_suffix (c ∷ []) = none
private_suffix (c ∷ d ∷ suffix) = if c == b'~' && d == slash then some suffix else none

unfoldable pub expand_connection_name : Text → Option Text → Option Text → Text
expand_connection_name name node_ns node_name =
    if is_absolute name then name else elim (private_suffix name) [
      | some suffix ↦ expand_private (namespace_base node_ns) node_name suffix
      | none ↦ expand_relative (namespace_base node_ns) name
    ]
