-- ===== src/Graph/Connected.antt =====
-- The edges of the remappings of a node refer to known ids only.
use roscope.Base.{
  Text, Dict, true, [], ◌∷◌, Option, none, some, contains_text, ◌≡◌, Bool-cases, inl, inr,
}
use roscope.Graph.{Pairs, NodeEntry, Builder, absolute_name, get_or_create_connection}
use roscope.Graph.Remaps.{
  add_node, add_edge, edge_of, connect, conn_type_of, family_of, out_conn_types, in_conn_types,
  add_connection, add_connection_edges,
}
use roscope.Graph.Refers.{known}
use roscope.Graph.Steps.{
  Step, Step-refl, Step-trans, KnownParent, Gives, add_node-Step, add_node-known, add_edge-Step,
  connection_named-Gives,
}

edge_of-Step :
    (node_id cid : Text) (conn_type : Option Text) (b : Builder)
    → known b node_id ≡ true
    → known b cid ≡ true
    → Step b (add_edge (edge_of node_id cid conn_type) b)
edge_of-Step node_id cid none b hn hc = add_edge-Step _ b hn hc
edge_of-Step node_id cid (some conn_type) b hn hc =
    elim (Bool-cases (contains_text out_conn_types conn_type)) [
      | inl out ↦ rw out (add_edge-Step _ b hn hc)
      | inr not_out ↦ elim (Bool-cases (contains_text in_conn_types conn_type)) [
        | inl inn ↦ rw (not_out, inn) (add_edge-Step _ b hc hn)
        | inr not_in ↦ rw (not_out, not_in) (add_edge-Step _ b hn hc)
      ]
    ]

connect-Step :
    (node_id : Text) (conn_type : Option Text) (b : Builder) (r : Text × Builder)
    → known b node_id ≡ true
    → Gives b r
    → Step b (connect node_id conn_type r)
connect-Step node_id conn_type b (cid, c) hn g =
    Step-trans b c (connect node_id conn_type (cid, c)) g.0
      (edge_of-Step node_id cid conn_type c (g.0.0 node_id hn) g.1)

add_connection-Step :
    (node_id node_fqn node_ns to : Text) (conn_type : Option (Option Text)) (b : Builder)
    → known b node_id ≡ true
    → Step b (add_connection node_id node_fqn node_ns to conn_type b)
add_connection-Step node_id node_fqn node_ns to none b hn = Step-refl b
add_connection-Step node_id node_fqn node_ns to (some conn_type) b hn =
    connect-Step node_id conn_type b
      (get_or_create_connection to node_fqn node_ns (family_of conn_type) b) hn
      (connection_named-Gives (absolute_name to node_fqn node_ns) (family_of conn_type) b)

add_connection_edges-Step :
    (node_id node_fqn node_ns : Text) (metadata : Option (Dict (Dict Text))) (remaps : Pairs)
    (b : Builder)
    → known b node_id ≡ true
    → Step b (add_connection_edges node_id node_fqn node_ns metadata remaps b)
unfolding add_connection_edges
add_connection_edges-Step node_id node_fqn node_ns metadata [] b hn = Step-refl b
add_connection_edges-Step node_id node_fqn node_ns metadata ((from_, []) ∷ remaps) b hn =
    add_connection_edges-Step node_id node_fqn node_ns metadata remaps b hn
add_connection_edges-Step node_id node_fqn node_ns metadata ((from_, c ∷ to) ∷ remaps) b hn =
    let next = add_connection node_id node_fqn node_ns (c ∷ to) (conn_type_of metadata from_) b in
    let s =
      add_connection-Step node_id node_fqn node_ns (c ∷ to) (conn_type_of metadata from_) b hn in
    Step-trans b next (add_connection_edges node_id node_fqn node_ns metadata remaps next) s
      (add_connection_edges-Step node_id node_fqn node_ns metadata remaps next (s.0 node_id hn))

-- A node is added, and then the edges for its remappings.
pub node_with_edges-Step :
    (n : NodeEntry) (fqn ns : Text) (metadata : Option (Dict (Dict Text))) (remaps : Pairs)
    (b : Builder)
    → KnownParent b n.parent
    → Step b (add_connection_edges n.id fqn ns metadata remaps (add_node n b))
      × (known (add_connection_edges n.id fqn ns metadata remaps (add_node n b)) n.id ≡ true)
node_with_edges-Step n fqn ns metadata remaps b h =
    let s =
      add_connection_edges-Step n.id fqn ns metadata remaps (add_node n b) (add_node-known n b) in
    (
      Step-trans b (add_node n b) (add_connection_edges n.id fqn ns metadata remaps (add_node n b))
          (add_node-Step n b h) s,
      s.0 n.id (add_node-known n b),
    )
