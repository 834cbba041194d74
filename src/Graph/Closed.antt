-- ===== src/Graph/Closed.antt =====
-- The graph of a resolved launch file refers to the ids only that it has.
use roscope.Base.{
  ℕ, Text, Dict, Bool, not, ◌==◌, ◌||◌, List, [], ◌∷◌, none, some, keys, contains_text,
  contains_text_iff, text_eq_iff, ◌≡◌, ◌∙◌, sym, ap, refl, arith, Bool-cases, inl, inr, Unicode,
  sorted, mem-lookup, contains_text-occurrences, occurrences-sorted,
}
use roscope.Graph.{ConnectionMeta, Builder, new_builder}
use roscope.Graph.Walk.{walk}
use roscope.Graph.Tree.{Actions}
use roscope.Graph.Loads.{
  resolve_load_targets, Metadata, Graph, values_of, distinct, conn_list, graph_of, to_dict,
  actions_to_graph,
}
use roscope.Graph.Refers.{
  has_node, has_group, has_value, node_refers, group_refers, edge_refers, target_refers,
  child_refers,
}
use roscope.Graph.Steps.{Within, IsSound}
use roscope.Graph.Wired.{walk-Step}
use roscope.Graph.Loaded.{resolve_load_targets-IsSound}

contains_text-distinct :
    (xs : List Text) (x : Text) → contains_text (distinct xs) x ≡ contains_text xs x
unfolding contains_text distinct
contains_text-distinct [] x = refl
contains_text-distinct (y ∷ ys) x = elim (Bool-cases (contains_text (distinct ys) y)) [
  | inl old ↦
      rw old
        (ground (arith, contains_text-distinct ys x, contains_text-distinct ys y, text_eq_iff y x))
  | inr new ↦ rw new (ground (arith, contains_text-distinct ys x))
]

contains_text-sorted :
    (xs : List Text) (x : Text) → contains_text (sorted xs) x ≡ contains_text xs x
contains_text-sorted xs x =
    contains_text-occurrences x (sorted xs)
    ∙ ap (λ n. not (n == 0)) (occurrences-sorted x xs)
    ∙ sym (contains_text-occurrences x xs)

contains_text-values_of : (d : Dict Text) (x : Text) → contains_text (values_of d) x ≡ has_value d x
unfolding contains_text values_of has_value
contains_text-values_of [] x = refl
contains_text-values_of ((k, v) ∷ d) x = ground (arith, contains_text-values_of d x)

-- Every connection with metadata is listed, in the order of the ids.
conn_list-keys :
    (meta : Dict ConnectionMeta) (cids : List Text)
    → Within (contains_text cids) (contains_text (keys meta))
    → (l : List (Text × ConnectionMeta)) × ((conn_list meta cids ≡ some l) × (keys l ≡ cids))
unfolding conn_list contains_text keys
conn_list-keys meta [] h = ([], (refl, refl))
conn_list-keys meta (cid ∷ cids) h =
    let found =
      mem-lookup cid meta
        ((contains_text_iff (keys meta) cid).0 (h cid (ground (arith, text_eq_iff cid cid)))) in
    let rest = conn_list-keys meta cids (λ x e. h x (ground arith)) in
    ((cid, found.0) ∷ rest.0, (rw (found.1, rest.1.0) refl, rw rest.1.1 refl))

-- The ids of a graph, and those that it refers to.
abbrev pub has_id : Graph → Text → Bool
has_id g x = has_node g.nodes x || has_group g.groups x || contains_text (keys g.connections) x

abbrev pub refers_to : Graph → Text → Bool
refers_to g x = node_refers g.nodes x || group_refers g.groups x || edge_refers g.edges x

to_dict-IsClosed :
    (metadata : Metadata) (b : Builder)
    → IsSound b
    → (g : Graph) × ((to_dict metadata b ≡ some g) × Within (refers_to g) (has_id g))
unfolding to_dict
to_dict-IsClosed metadata b s =
    let cids = sorted (distinct (values_of b.connections)) in
    let listed = conn_list-keys b.connection_meta cids (λ x e. s.1 x (same x ∙ e)) in
    (
      record {
        metadata = metadata;
        nodes = b.nodes;
        groups = b.groups;
        connections = listed.0;
        edges = b.edges;
      },
      (
        ap (graph_of metadata b) listed.1.0,
        λ x e.
            let k = s.0 x (ground arith) in
            let c = ap (λ ids. contains_text ids x) listed.1.1 ∙ sym (same x) in ground arith,
      ),
    )
  where
    same :
        (x : Text)
        → has_value b.connections x ≡ contains_text (sorted (distinct (values_of b.connections))) x
    same x = sym (
        contains_text-sorted (distinct (values_of b.connections)) x
        ∙ contains_text-distinct (values_of b.connections) x
        ∙ contains_text-values_of b.connections x)

new_builder-IsSound : IsSound new_builder
unfolding node_refers group_refers edge_refers has_value target_refers child_refers
new_builder-IsSound = (λ x e. absurd (cc), λ x e. absurd (cc))

-- Whatever the resolved actions are, there is a graph, and each parent and each end of an edge in it
-- is the id of a node, a group or a connection of the graph.
pub actions_to_graph-IsClosed :
    (u : Unicode) (digest : Text → ℕ) (metadata : Metadata) (actions : Actions)
    → (g : Graph) × ((actions_to_graph u digest metadata actions ≡ some g)
        × Within (refers_to g) (has_id g))
unfolding actions_to_graph
actions_to_graph-IsClosed u digest metadata actions =
    let walked = walk u digest actions none new_builder in
    to_dict-IsClosed metadata (resolve_load_targets u digest walked) (
      resolve_load_targets-IsSound u digest walked
        ((walk-Step u digest actions none new_builder (λ x e. absurd (cc))).1 new_builder-IsSound))
