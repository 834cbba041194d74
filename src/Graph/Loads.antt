-- ===== src/Graph/Loads.antt =====
-- The second pass of roscope/visualizer/graph.py, which places the composable nodes that are
-- loaded into containers, and the graph that is the result.
use roscope.Base.{
  ℕ, Text, Dict, chars, List, [], ◌∷◌, ◌++◌, Option, none, some, lookup, insert, contains_text,
  if◌then◌else◌, Unicode, sorted,
}
use roscope.Graph.{
  NodeEntry, lcn_wrapper, GroupEntry, load_target, Edge, ConnectionMeta, Pending, Builder,
  new_builder, uid,
}
use roscope.Graph.Walk.{walk, handle_composable_node}
use roscope.Graph.Tree.{Actions}
use roscope.Graph.Remaps.{add_group, add_edge}

-- The deferred composable nodes of one action: the first, and the others.
abbrev pub Loads : Type 0
Loads = Pending × List Pending

-- `lcn_groups[lcn_id].append(...)`
abbrev pub append_child : Pending → Option Loads → Loads
append_child child none = (child, [])
append_child child (some (first, others)) = (first, others ++ child ∷ [])

unfoldable pub lcn_groups_onto : List Pending → Dict Loads → Dict Loads
lcn_groups_onto [] groups = groups
lcn_groups_onto (child ∷ children) groups =
    lcn_groups_onto children
      (insert child.lcn_id (append_child child (lookup child.lcn_id groups)) groups)

-- The container, if it is known, and else the parent to fall back on.
abbrev pub or_parent : Option Text → Option Text → Option Text
or_parent none fallback_parent = fallback_parent
or_parent (some container_id) fallback_parent = some container_id

module _ (u : Unicode) (digest : Text → ℕ) where
  unfoldable pub handle_children : List Pending → Text → Builder → Builder
  unfolding handle_composable_node
  handle_children [] parent_id b = b
  handle_children (child ∷ children) parent_id b =
      handle_children children parent_id (handle_composable_node u digest child.desc parent_id b)

  abbrev pub push_wrapper : Text → Loads → Text × Builder → Builder
  push_wrapper lcn_id (first, others) (wrapper_id, b) =
      handle_children (first ∷ others) wrapper_id (
        add_edge (record { source = lcn_id; target = wrapper_id; edge_type = load_target })
          (add_group
            (record {
              id = wrapper_id;
              file = none;
              parent = or_parent (lookup first.target_name b.containers) first.fallback_parent;
              group_type = lcn_wrapper;
              args = [];
              include_args = none;
            })
            b))

  unfoldable pub add_wrappers : Dict Loads → Builder → Builder
  unfolding uid handle_children
  add_wrappers [] b = b
  add_wrappers ((lcn_id, loads) ∷ groups) b =
      add_wrappers groups (push_wrapper lcn_id loads (uid (chars "lcn_wrapper" ∷ lcn_id ∷ []) b))

abbrev pub to_container : Text → Option Text → Builder → Builder
to_container lcn_id none b = b
to_container lcn_id (some []) b = b
to_container lcn_id (some (c ∷ container_id)) b =
    add_edge (record { source = lcn_id; target = c ∷ container_id; edge_type = load_target }) b

-- The actions whose id is not among those with a wrapper.
unfoldable pub link_containers : List Text → List (Text × Text) → Builder → Builder
link_containers lcn_with_children [] b = b
link_containers lcn_with_children ((lcn_id, target_name) ∷ pending) b =
    link_containers lcn_with_children pending (
      if contains_text lcn_with_children lcn_id
      then b
      else to_container lcn_id (lookup target_name b.containers) b)

abbrev pub keys_of : Dict Loads → List Text
keys_of [] = []
keys_of ((lcn_id, loads) ∷ groups) = lcn_id ∷ keys_of groups

-- `resolve_load_targets`
unfoldable pub resolve_load_targets : Unicode → (Text → ℕ) → Builder → Builder
unfolding lcn_groups_onto add_wrappers link_containers
resolve_load_targets u digest b =
    let lcn_groups = lcn_groups_onto b.pending_composable_children [] in
    link_containers (keys_of lcn_groups) b.pending_load_targets (add_wrappers u digest lcn_groups b)

-- `metadata`: its last two entries come from the clock and from the program's version.
pub record Metadata : Type 0 where
  pub package_name : Text
  pub launcher : Text
  pub timestamp : Text
  pub version : Text

pub record Graph : Type 0 where
  pub metadata : Metadata
  pub nodes : List NodeEntry
  pub groups : List GroupEntry
  pub connections : List (Text × ConnectionMeta)
  pub edges : List Edge

unfoldable pub values_of : Dict Text → List Text
values_of [] = []
values_of ((k, v) ∷ d) = v ∷ values_of d

-- `set(values)`
unfoldable pub distinct : List Text → List Text
distinct [] = []
distinct (x ∷ xs) = let rest = distinct xs in if contains_text rest x then rest else x ∷ rest

abbrev pub add_listed :
    Text
    → Option ConnectionMeta
    → Option (List (Text × ConnectionMeta))
    → Option (List (Text × ConnectionMeta))
add_listed cid none rest = none
add_listed cid (some m) none = none
add_listed cid (some m) (some rest) = some ((cid, m) ∷ rest)

-- `conn_list`: none is the `KeyError` for an id without metadata.
unfoldable pub conn_list : Dict ConnectionMeta → List Text → Option (List (Text × ConnectionMeta))
conn_list connection_meta [] = some []
conn_list connection_meta (cid ∷ cids) =
    add_listed cid (lookup cid connection_meta) (conn_list connection_meta cids)

abbrev pub graph_of : Metadata → Builder → Option (List (Text × ConnectionMeta)) → Option Graph
graph_of metadata b none = none
graph_of metadata b (some connections) = some (record {
  metadata = metadata;
  nodes = b.nodes;
  groups = b.groups;
  connections = connections;
  edges = b.edges;
})

unfoldable pub to_dict : Metadata → Builder → Option Graph
unfolding conn_list distinct values_of sorted
to_dict metadata b =
    graph_of metadata b (conn_list b.connection_meta (sorted (distinct (values_of b.connections))))

unfoldable pub actions_to_graph : Unicode → (Text → ℕ) → Metadata → Actions → Option Graph
unfolding walk resolve_load_targets to_dict
actions_to_graph u digest metadata actions =
    to_dict metadata (resolve_load_targets u digest (walk u digest actions none new_builder))
