-- ===== src/Graph/Walk.antt =====
-- The walk over the resolved actions: `walk` and the handlers of roscope/visualizer/graph.py.
use Prim.Native.Nat.{◌%◌}
use roscope.Base.{
  ℕ, Text, chars, List, [], ◌∷◌, ◌++◌, Option, none, some, insert, rstrip, Unicode, split_words,
}
use roscope.Namespace.{slash}
use roscope.Graph.{
  Pairs, NodeFields, node_detail, composable_detail, load_detail, executable_detail, Composable,
  Pending, Builder, or_text, decimal, uid,
}
use roscope.Graph.Remaps.{add_node, add_connection_edges}
use roscope.Graph.Tree.{
  NodeAction, Action, Actions, source_marker, arg_comment, group_action, container,
  load_composable_nodes, node, execute_process, other_action, finished, and_then, open_group,
}

-- `_build_params`
unfoldable pub build_params : List Pairs → Pairs → Pairs
build_params [] inline = inline
build_params (pf ∷ param_files) inline = pf ++ build_params param_files inline

abbrev pub fqn_of : Text → Text → Text
fqn_of ns name = rstrip slash ns ++ slash ∷ name

-- `_package_color`: the number that the first six hexadecimal digits of the MD5 sum of a text
-- write comes from `digest`.
module _ (u : Unicode) (digest : Text → ℕ) where
  unfoldable pub package_color : Text → Text
  unfolding decimal
  package_color pkg = chars "hsl(" ++ decimal (digest pkg % 360) ++ chars ", 60%, 70%)"

  abbrev node_fields : Text → Text → Text → NodeAction → NodeFields
  node_fields kind pkg ns action =
      let name = or_text action.name (or_text action.executable []) in
      record {
        kind = kind;
        pkg = pkg;
        executable = or_text action.executable [];
        name = name;
        ns = ns;
        fqn = fqn_of ns name;
        color = package_color pkg;
        params = build_params action.param_files action.parameters;
        remaps = action.remappings;
      }

  abbrev pub push_node : NodeAction → Option Text → NodeFields → Text × Builder → Builder
  push_node action parent_id fields (nid, b) =
      add_connection_edges nid fields.fqn fields.ns action.remap_metadata action.remappings
        (add_node (record { id = nid; parent = parent_id; detail = node_detail fields }) b)

  -- The actions without a package are left out.
  abbrev pub node_in : Text → NodeAction → Option Text → Builder → Builder
  node_in [] action parent_id b = b
  node_in (c ∷ pkg) action parent_id b =
      let fields = node_fields action.kind (c ∷ pkg) (or_text action.ns (slash ∷ [])) action in
      push_node action parent_id fields (uid (chars "node" ∷ (c ∷ pkg) ∷ fields.fqn ∷ []) b)

  -- `_handle_node`
  unfoldable pub handle_node : NodeAction → Option Text → Builder → Builder
  unfolding uid add_connection_edges package_color build_params
  handle_node action parent_id b = node_in (or_text action.pkg []) action parent_id b

  abbrev composable_fields : Text → Composable → NodeFields
  composable_fields ns resolved = record {
    kind = chars "composable_node";
    pkg = resolved.pkg;
    executable = resolved.plugin;
    name = resolved.name;
    ns = ns;
    fqn = elim resolved.name [ [] ↦ ns | c ∷ name ↦ fqn_of ns (c ∷ name) ];
    color = package_color resolved.pkg;
    params = build_params resolved.param_files resolved.parameters;
    remaps = resolved.remappings;
  }

  abbrev pub push_composable : Composable → Text → NodeFields → Text × Builder → Builder
  push_composable resolved parent_id fields (cnid, b) =
      add_connection_edges cnid fields.fqn fields.ns resolved.remap_metadata resolved.remappings (
        add_node
          (record {
            id = cnid;
            parent = some parent_id;
            detail = composable_detail fields resolved.extra_arguments;
          })
          b)

  -- `_handle_composable_node`
  unfoldable pub handle_composable_node : Option Composable → Text → Builder → Builder
  unfolding uid add_connection_edges package_color build_params
  handle_composable_node none parent_id b = b
  handle_composable_node (some resolved) parent_id b =
      push_composable resolved parent_id
        (composable_fields (or_text resolved.ns (slash ∷ [])) resolved)
        (uid (chars "composable" ∷ parent_id ∷ resolved.plugin ∷ resolved.name ∷ []) b)

  unfoldable pub handle_composable_nodes : List (Option Composable) → Text → Builder → Builder
  unfolding handle_composable_node
  handle_composable_nodes [] parent_id b = b
  handle_composable_nodes (desc ∷ descs) parent_id b =
      handle_composable_nodes descs parent_id (handle_composable_node desc parent_id b)

  abbrev pub push_container :
      List (Option Composable) → Option Text → NodeFields → Text × Builder → Builder
  push_container descs parent_id fields (cid, b) =
      let added =
        add_node (record { id = cid; parent = parent_id; detail = node_detail fields }) b in
      handle_composable_nodes descs cid
        (record added { containers = insert fields.fqn cid added.containers })

  abbrev pub container_in :
      Text → NodeAction → List (Option Composable) → Option Text → Builder → Builder
  container_in [] action descs parent_id b = b
  container_in (c ∷ pkg) action descs parent_id b =
      let fields =
        node_fields (chars "container") (c ∷ pkg) (or_text action.ns (slash ∷ [])) action in
      push_container descs parent_id fields
        (uid (chars "container" ∷ (c ∷ pkg) ∷ fields.fqn ∷ []) b)

  -- `_handle_container`
  unfoldable pub handle_container :
      NodeAction → List (Option Composable) → Option Text → Builder → Builder
  unfolding uid handle_composable_nodes package_color build_params
  handle_container action descs parent_id b =
      container_in (or_text action.pkg []) action descs parent_id b

  unfoldable pub pending_children :
      Text → Text → Option Text → List (Option Composable) → List Pending
  pending_children lcn_id target parent_id [] = []
  pending_children lcn_id target parent_id (desc ∷ descs) =
      record { lcn_id = lcn_id; target_name = target; desc = desc; fallback_parent = parent_id }
      ∷ pending_children lcn_id target parent_id descs

  abbrev pub push_load :
      Text → Text → List (Option Composable) → Option Text → Text × Builder → Builder
  push_load target ns descs parent_id (lcn_id, b) =
      let added =
        add_node (record { id = lcn_id; parent = parent_id; detail = load_detail target ns }) b in
      record added {
        pending_load_targets = added.pending_load_targets ++ (lcn_id, target) ∷ [];
        pending_composable_children =
            added.pending_composable_children ++ pending_children lcn_id target parent_id descs;
      }

  abbrev pub load_in : Text → Text → List (Option Composable) → Option Text → Builder → Builder
  load_in [] ns descs parent_id b = b
  load_in (c ∷ target) ns descs parent_id b =
      push_load (c ∷ target) ns descs parent_id (uid (chars "lcn" ∷ (c ∷ target) ∷ ns ∷ []) b)

  -- `_handle_load_composable`
  unfoldable pub handle_load_composable :
      Option Text → Option Text → List (Option Composable) → Option Text → Builder → Builder
  unfolding uid pending_children
  handle_load_composable target ns [] parent_id b = b
  handle_load_composable target ns (desc ∷ descs) parent_id b =
      load_in (or_text target []) (or_text ns []) (desc ∷ descs) parent_id b

  abbrev pub first_or_empty : List Text → Text
  first_or_empty [] = []
  first_or_empty (w ∷ words) = w

  abbrev pub push_executable : Text → Text → Option Text → Text × Builder → Builder
  push_executable name cmd parent_id (eid, b) =
      add_node (record { id = eid; parent = parent_id; detail = executable_detail name cmd }) b

  abbrev pub executable_in : Text → Option Text → Option Text → Builder → Builder
  executable_in [] name parent_id b = b
  executable_in (c ∷ cmd) name parent_id b =
      let shown = or_text name (first_or_empty (split_words u (c ∷ cmd))) in
      push_executable shown (c ∷ cmd) parent_id (uid (chars "exec" ∷ shown ∷ []) b)

  -- `_handle_executable`
  unfoldable pub handle_executable : Option Text → Option Text → Option Text → Builder → Builder
  unfolding uid split_words
  handle_executable cmd name parent_id b = executable_in (or_text cmd []) name parent_id b

  -- `walk`: one action, and the loop.
  unfoldable mutual
    unfolding open_group handle_node handle_container handle_load_composable handle_executable

    pub walk_action : Action → Option Text → Builder → Builder
    walk_action (source_marker file_path include_args) parent_id b = b
    walk_action (arg_comment arg) parent_id b = b
    walk_action (group_action finished) parent_id b = b
    walk_action (group_action (and_then first rest)) parent_id b =
        let opened = open_group first (and_then first rest) parent_id b in
        walk rest (some opened.0) (walk_action first (some opened.0) opened.1)
    walk_action (container action descs) parent_id b = handle_container action descs parent_id b
    walk_action (load_composable_nodes target ns descs) parent_id b =
        handle_load_composable target ns descs parent_id b
    walk_action (node action) parent_id b = handle_node action parent_id b
    walk_action (execute_process cmd name) parent_id b = handle_executable cmd name parent_id b
    walk_action other_action parent_id b = b

    pub walk : Actions → Option Text → Builder → Builder
    walk finished parent_id b = b
    walk (and_then a rest) parent_id b = walk rest parent_id (walk_action a parent_id b)
