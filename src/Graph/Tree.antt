-- ===== src/Graph/Tree.antt =====
-- The resolved actions that roscope/visualizer/graph.py walks over, and the entry of a group.
use roscope.Base.{Text, Dict, chars, List, [], ◌∷◌, Option, none, some}
use roscope.Graph.{Pairs, Arg, include, Composable, Builder, or_text, uid}
use roscope.Graph.Remaps.{add_group}

-- A `Node` or `ComposableNodeContainer` with its resolved fields.
pub record NodeAction : Type 0 where
  pub kind : Text
  pub pkg : Option Text
  pub executable : Option Text
  pub name : Option Text
  pub ns : Option Text
  pub param_files : List Pairs
  pub parameters : Pairs
  pub remappings : Pairs
  pub remap_metadata : Option (Dict (Dict Text))

mutual
  pub data Action : Type 0 where
    -- the path of the file, and the arguments of the include
    source_marker : Text → Dict Text → Action
    arg_comment : Arg → Action
    -- the resolved children, none of them where there is no list
    group_action : Actions → Action
    -- A composable node without resolved data is none.
    container : NodeAction → List (Option Composable) → Action
    -- target, namespace and composable nodes
    load_composable_nodes : Option Text → Option Text → List (Option Composable) → Action
    node : NodeAction → Action
    -- command and name, where they are texts
    execute_process : Option Text → Option Text → Action
    other_action : Action

  pub data Actions : Type 0 where
    finished : Actions
    and_then : Action → Actions → Actions

abbrev arg_entries : Actions → List Arg
arg_entries finished = []
arg_entries (and_then (arg_comment arg) rest) = arg ∷ arg_entries rest
arg_entries (and_then a rest) = arg_entries rest

abbrev pub source_of : Action → Option Text
source_of (source_marker file_path include_args) = some file_path
source_of a = none

abbrev include_args_of : Action → Option (Dict Text)
include_args_of (source_marker file_path include_args) = some include_args
include_args_of a = none

-- `self._groups.append(...)` of `_handle_group`, of which the first child is given apart.
abbrev pub push_group : Action → Actions → Option Text → Text × Builder → Text × Builder
push_group first children parent_id (gid, b) = (
  gid,
  add_group
      (record {
        id = gid;
        file = source_of first;
        parent = parent_id;
        group_type = include;
        args = arg_entries children;
        include_args = include_args_of first;
      })
      b,
)

unfoldable pub open_group : Action → Actions → Option Text → Builder → Text × Builder
unfolding uid
open_group first children parent_id b =
    push_group first children parent_id (uid (chars "group" ∷ or_text (source_of first) [] ∷ []) b)
