-- ===== src/Graph/Tests.antt =====
-- The graph of a small launch file, and the theorem about it at that input.
use roscope.Base.{
  ℕ, Text, chars, false, List, [], ◌∷◌, Option, none, some, Unicode, ◌≡◌, refl, map, length,
  text_eq, text_lt, lookup, insert, rstrip, contains_text, sorted, split_words, is_space,
}
use roscope.Graph.{
  Composable, new_builder, uid, decimal, join_parts, connection_named, absolute_name,
}
use roscope.Graph.Walk.{
  walk, handle_node, handle_container, handle_load_composable, handle_executable,
  handle_composable_node, handle_composable_nodes, build_params, package_color, pending_children,
}
use roscope.Graph.Tree.{
  NodeAction, Actions, finished, and_then, source_marker, group_action, container,
  load_composable_nodes, node, execute_process, open_group,
}
use roscope.Graph.Remaps.{add_connection_edges}
use roscope.Graph.Loads.{
  Metadata, Graph, actions_to_graph, resolve_load_targets, to_dict, conn_list, distinct, values_of,
  lcn_groups_onto, handle_children, add_wrappers, link_containers,
}
use roscope.Graph.Closed.{actions_to_graph-IsClosed, has_id, refers_to}
use roscope.Graph.Named.{absolute_name-agrees}
use roscope.Namespace.{expand_connection_name, expand_private}
use roscope.Graph.Walk.{fqn_of}
use roscope.Graph.Steps.{Within}

abbrev ascii_only : Unicode
ascii_only = record { wide_space = λ c. false; wide_alnum = λ c. false }

abbrev digest : Text → ℕ
digest pkg = length pkg

abbrev metadata : Metadata
metadata = record {
  package_name = chars "p";
  launcher = chars "a.launch.xml";
  timestamp = chars "now";
  version = chars "1";
}

abbrev talker : NodeAction
talker = record {
  kind = chars "node";
  pkg = some (chars "p");
  executable = some (chars "talker");
  name = none;
  ns = some (chars "/n");
  param_files = [];
  parameters = [];
  remappings = (chars "out", chars "chatter") ∷ (chars "in", chars "~/in") ∷ [];
  remap_metadata = some ((chars "out", (chars "type", chars "publisher") ∷ []) ∷ []);
}

abbrev filter : Composable
filter = record {
  pkg = chars "p";
  plugin = chars "p::Filter";
  name = chars "f";
  ns = none;
  param_files = [];
  parameters = [];
  remappings = (chars "in", chars "/n/chatter") ∷ [];
  remap_metadata = none;
  extra_arguments = [];
}

-- The composable node is loaded before its container is known.
abbrev sample : Actions
sample =
    and_then
      (group_action (
        and_then (source_marker (chars "a.launch.xml") []) (
          and_then (load_composable_nodes (some (chars "/n/talker")) none (some filter ∷ []))
            (and_then (node talker) finished))))
      (and_then (container talker [])
        (and_then (execute_process (some (chars "ls -l")) none) finished))

actions_to_graph-IsClosed_example :
    (g : Graph) × ((actions_to_graph ascii_only digest metadata sample ≡ some g)
      × Within (refers_to g) (has_id g))
actions_to_graph-IsClosed_example = actions_to_graph-IsClosed ascii_only digest metadata sample

abbrev ends : Option Graph → List (Text × Text)
ends none = []
ends (some g) = map (λ e. (e.source, e.target)) g.edges

edges_of_sample :
    ends (actions_to_graph ascii_only digest metadata sample)
    ≡ (chars "node/p//n/talker", chars "connection//n/chatter")
      ∷ (chars "lcn//n/talker", chars "lcn_wrapper/lcn//n/talker")
      ∷ (chars "composable/lcn_wrapper/lcn//n/talker/p::Filter/f", chars "connection//n/chatter")
      ∷ []
unfolding actions_to_graph walk open_group handle_node handle_container handle_load_composable
    handle_executable handle_composable_node handle_composable_nodes add_connection_edges
    build_params package_color pending_children resolve_load_targets to_dict conn_list distinct
    values_of lcn_groups_onto handle_children add_wrappers link_containers uid decimal join_parts
    connection_named absolute_name text_eq text_lt lookup insert rstrip contains_text sorted
    split_words is_space
edges_of_sample = refl

-- Two elements with one identity, and one whose identity has the suffix of the second already.
uid_collides :
    let b = new_builder in
    let first = uid (chars "group" ∷ chars "a" ∷ []) b in
    let second = uid (chars "group" ∷ chars "a" ∷ []) first.1 in
    let third = uid (chars "group" ∷ chars "a#1" ∷ []) second.1 in
    (second.0 ≡ chars "group/a#1") × (third.0 ≡ chars "group/a#1")
unfolding uid decimal join_parts text_eq lookup insert
uid_collides = (refl, refl)

absolute_name-agrees_example :
    absolute_name (chars "~/in") (fqn_of (chars "/n/") (chars "talker")) (chars "/n/")
    ≡ expand_connection_name (chars "~/in") (some (chars "/n/")) (some (chars "talker"))
absolute_name-agrees_example =
    absolute_name-agrees (chars "~/in") (chars "/n/") (chars "talker") refl refl

-- A node without a name: the graph takes the executable for it, the launch context no name.
unnamed_differ :
    (absolute_name (chars "~/in") (fqn_of (chars "/n") (chars "talker")) (chars "/n")
      ≡ chars "/n/talker/in")
    × (expand_connection_name (chars "~/in") (some (chars "/n")) none ≡ chars "/in")
unfolding absolute_name expand_connection_name rstrip expand_private
unnamed_differ = (refl, refl)
