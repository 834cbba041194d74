-- ===== src/Graph/Remaps.antt =====
-- The edges from a node to the connections of its remappings, of roscope/visualizer/graph.py.
use roscope.Base.{
  Text, Dict, chars, true, false, List, [], ◌∷◌, ◌++◌, Option, none, some, lookup, contains_text,
  if◌then◌else◌,
}
use roscope.Connection.{Family, protocol_family}
use roscope.Graph.{
  Pairs, NodeEntry, GroupEntry, remap, Edge, Builder, connection_named, get_or_create_connection,
}

abbrev pub add_node : NodeEntry → Builder → Builder
add_node n b = record b { nodes = b.nodes ++ n ∷ [] }

abbrev pub add_group : GroupEntry → Builder → Builder
add_group g b = record b { groups = b.groups ++ g ∷ [] }

abbrev pub add_edge : Edge → Builder → Builder
add_edge e b = record b { edges = b.edges ++ e ∷ [] }

abbrev pub out_conn_types : List Text
out_conn_types = chars "publisher" ∷ chars "service_client" ∷ chars "action_client" ∷ []

abbrev pub in_conn_types : List Text
in_conn_types = chars "subscription" ∷ chars "service_server" ∷ chars "action_server" ∷ []

abbrev pub edge_of : Text → Text → Option Text → Edge
edge_of node_id cid none = record { source = node_id; target = cid; edge_type = remap false [] }
edge_of node_id cid (some conn_type) =
    if contains_text out_conn_types conn_type
    then record { source = node_id; target = cid; edge_type = remap true conn_type }
    else if contains_text in_conn_types conn_type
    then record { source = cid; target = node_id; edge_type = remap true conn_type }
    else record { source = node_id; target = cid; edge_type = remap false conn_type }

abbrev pub family_of : Option Text → Option Family
family_of none = none
family_of (some conn_type) = lookup conn_type protocol_family

abbrev pub connect : Text → Option Text → Text × Builder → Builder
connect node_id conn_type (cid, b) = add_edge (edge_of node_id cid conn_type) b

-- The type that the metadata gives a remapping: none where the remapping is skipped, since there
-- is metadata but none for its name.
abbrev pub conn_type_of : Option (Dict (Dict Text)) → Text → Option (Option Text)
conn_type_of none from_ = some none
conn_type_of (some metadata) from_ = elim (lookup from_ metadata) [
  | none ↦ none
  | some [] ↦ none
  | some (entry ∷ meta) ↦ some (lookup (chars "type") (entry ∷ meta))
]

abbrev pub add_connection : Text → Text → Text → Text → Option (Option Text) → Builder → Builder
add_connection node_id node_fqn node_ns to none b = b
add_connection node_id node_fqn node_ns to (some conn_type) b =
    connect node_id conn_type (get_or_create_connection to node_fqn node_ns (family_of conn_type) b)

-- One round of the loop: a remapping to the empty text is skipped.
abbrev pub add_remap_edge :
    Text → Text → Text → Option (Dict (Dict Text)) → Text × Text → Builder → Builder
add_remap_edge node_id node_fqn node_ns metadata (from_, []) b = b
add_remap_edge node_id node_fqn node_ns metadata (from_, c ∷ to) b =
    add_connection node_id node_fqn node_ns (c ∷ to) (conn_type_of metadata from_) b

-- `_add_connection_edges`
unfoldable pub add_connection_edges :
    Text → Text → Text → Option (Dict (Dict Text)) → Pairs → Builder → Builder
unfolding connection_named
add_connection_edges node_id node_fqn node_ns metadata [] b = b
add_connection_edges node_id node_fqn node_ns metadata (r ∷ remaps) b =
    add_connection_edges node_id node_fqn node_ns metadata remaps
      (add_remap_edge node_id node_fqn node_ns metadata r b)
