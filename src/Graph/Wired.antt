-- ===== src/Graph/Wired.antt =====
-- The walk of the graph refers to known ids only.
use roscope.Base.{ℕ, Text, chars, [], ◌∷◌, Option, some, Unicode}
use roscope.Graph.{Builder, uid, or_text}
use roscope.Graph.Walk.{
  handle_node, handle_container, handle_load_composable, handle_executable, walk, walk_action,
}
use roscope.Graph.Tree.{
  Action, Actions, finished, and_then, source_marker, arg_comment, group_action, container,
  load_composable_nodes, node, execute_process, other_action, push_group, source_of, open_group,
}
use roscope.Graph.Steps.{
  Step, Step-refl, Step-trans, KnownParent, Known-some, Known-later, Gives, add_group-Step,
  add_group-known, uid-Step,
}
use roscope.Graph.Handled.{node_in-Step, container_in-Step, load_in-Step, executable_in-Step}

module _ (u : Unicode) (digest : Text → ℕ) where
  open_group-Gives :
      (first : Action) (children : Actions) (parent_id : Option Text) (b : Builder)
      → KnownParent b parent_id
      → Gives b (open_group first children parent_id b)
  unfolding open_group
  open_group-Gives first children parent_id b h =
      let parts = chars "group" ∷ or_text (source_of first) [] ∷ [] in
      push_group-Gives (uid parts b) (uid-Step parts b)
    where
      push_group-Gives :
          (r : Text × Builder) → Step b r.1 → Gives b (push_group first children parent_id r)
      push_group-Gives (gid, c) s = (
        Step-trans b c (push_group first children parent_id (gid, c)).1 s
            (add_group-Step _ c (Known-later b c parent_id s h)),
        add_group-known _ c,
      )

  -- The first child of a group, and then the others, whose parent is the group.
  group-Step :
      (b : Builder) (r : Text × Builder) (next last : Builder)
      → Gives b r
      → (KnownParent r.1 (some r.0) → Step r.1 next)
      → (KnownParent next (some r.0) → Step next last)
      → Step b last
  group-Step b (gid, c) next last g f t =
      let s = f (Known-some c gid g.1) in
      Step-trans b c last g.0 (Step-trans c next last s (t (Known-some next gid (s.0 gid g.1))))

  mutual
    unfolding walk handle_node handle_container handle_load_composable handle_executable

    walk_action-Step :
        (a : Action) (parent_id : Option Text) (b : Builder)
        → KnownParent b parent_id
        → Step b (walk_action u digest a parent_id b)
    walk_action-Step (source_marker file_path include_args) parent_id b h = Step-refl b
    walk_action-Step (arg_comment arg) parent_id b h = Step-refl b
    walk_action-Step (group_action finished) parent_id b h = Step-refl b
    walk_action-Step (group_action (and_then first rest)) parent_id b h =
        let opened = open_group first (and_then first rest) parent_id b in
        let gid = opened.0 in
        let next = walk_action u digest first (some gid) opened.1 in
        group-Step b opened next (walk u digest rest (some gid) next)
          (open_group-Gives first (and_then first rest) parent_id b h)
          (walk_action-Step first (some gid) opened.1) (walk-Step rest (some gid) next)
    walk_action-Step (container action descs) parent_id b h =
        container_in-Step u digest (or_text action.pkg []) action descs parent_id b h
    walk_action-Step (load_composable_nodes target ns []) parent_id b h = Step-refl b
    walk_action-Step (load_composable_nodes target ns (desc ∷ descs)) parent_id b h =
        load_in-Step u digest (or_text target []) (or_text ns []) (desc ∷ descs) parent_id b h
    walk_action-Step (node action) parent_id b h =
        node_in-Step u digest (or_text action.pkg []) action parent_id b h
    walk_action-Step (execute_process cmd name) parent_id b h =
        executable_in-Step u digest (or_text cmd []) name parent_id b h
    walk_action-Step other_action parent_id b h = Step-refl b

    pub walk-Step :
        (actions : Actions) (parent_id : Option Text) (b : Builder)
        → KnownParent b parent_id
        → Step b (walk u digest actions parent_id b)
    walk-Step finished parent_id b h = Step-refl b
    walk-Step (and_then a rest) parent_id b h =
        let next = walk_action u digest a parent_id b in
        let s = walk_action-Step a parent_id b h in
        Step-trans b next (walk u digest rest parent_id next) s
          (walk-Step rest parent_id next (Known-later b next parent_id s h))
