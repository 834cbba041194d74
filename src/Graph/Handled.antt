-- ===== src/Graph/Handled.antt =====
-- The handlers of the actions refer to known ids only.
use roscope.Base.{
  ℕ, Text, chars, true, ◌||◌, List, [], ◌∷◌, ◌++◌, Option, none, some, insert, text_eq, ◌≡◌, arith,
  Unicode, split_words,
}
use roscope.Graph.{
  NodeFields, node_detail, load_detail, NodeEntry, Composable, Builder, uid, or_text,
}
use roscope.Graph.Walk.{
  push_node, handle_composable_node, handle_composable_nodes, push_container, push_load,
  first_or_empty, push_executable, node_in, container_in, load_in, executable_in, pending_children,
}
use roscope.Graph.Tree.{NodeAction}
use roscope.Graph.Remaps.{add_node}
use roscope.Graph.Refers.{
  known, has_value-insert, target_refers-append, child_refers-append, target_refers, child_refers,
  is_text,
}
use roscope.Graph.Steps.{
  Step, Step-refl, Step-trans, KnownParent, Known-some, Known-later, add_node-Step, add_node-known,
  uid-Step,
}
use roscope.Graph.Connected.{node_with_edges-Step}

module _ (u : Unicode) (digest : Text → ℕ) where
  push_node-Step :
      (action : NodeAction) (parent_id : Option Text) (fields : NodeFields) (b : Builder)
      (r : Text × Builder)
      → Step b r.1
      → KnownParent b parent_id
      → Step b (push_node u digest action parent_id fields r)
  push_node-Step action parent_id fields b (nid, c) s h =
      Step-trans b c (push_node u digest action parent_id fields (nid, c)) s
        (node_with_edges-Step (record { id = nid; parent = parent_id; detail = node_detail fields })
          fields.fqn fields.ns action.remap_metadata action.remappings c
          (Known-later b c parent_id s h)).0

  pub node_in-Step :
      (pkg : Text) (action : NodeAction) (parent_id : Option Text) (b : Builder)
      → KnownParent b parent_id
      → Step b (node_in u digest pkg action parent_id b)
  node_in-Step [] action parent_id b h = Step-refl b
  node_in-Step (c ∷ pkg) action parent_id b h =
      push_node-Step action parent_id _ b _ (uid-Step _ b) h

  pub handle_composable_node-Step :
      (desc : Option Composable) (parent_id : Text) (b : Builder)
      → known b parent_id ≡ true
      → Step b (handle_composable_node u digest desc parent_id b)
  unfolding handle_composable_node uid
  handle_composable_node-Step none parent_id b h = Step-refl b
  handle_composable_node-Step (some resolved) parent_id b h =
      (node_with_edges-Step _ _ _ resolved.remap_metadata resolved.remappings _
        (Known-some b parent_id h)).0

  handle_composable_nodes-Step :
      (descs : List (Option Composable)) (parent_id : Text) (b : Builder)
      → known b parent_id ≡ true
      → Step b (handle_composable_nodes u digest descs parent_id b)
  unfolding handle_composable_nodes
  handle_composable_nodes-Step [] parent_id b h = Step-refl b
  handle_composable_nodes-Step (desc ∷ descs) parent_id b h =
      let next = handle_composable_node u digest desc parent_id b in
      let s = handle_composable_node-Step desc parent_id b h in
      Step-trans b next (handle_composable_nodes u digest descs parent_id next) s
        (handle_composable_nodes-Step descs parent_id next (s.0 parent_id h))

  -- A container is recorded under its name, with a known id.
  record_container-Step :
      (fqn cid : Text) (b : Builder)
      → known b cid ≡ true
      → Step b (record b { containers = insert fqn cid b.containers })
  record_container-Step fqn cid b h = (
    λ x k. k,
    λ s. (
      λ x r. ground (arith, has_value-insert fqn cid b.containers x, s.0 x, Known-some b cid h x),
      s.1,
    ),
  )

  push_container-Step :
      (descs : List (Option Composable)) (parent_id : Option Text) (fields : NodeFields)
      (b : Builder) (r : Text × Builder)
      → Step b r.1
      → KnownParent b parent_id
      → Step b (push_container u digest descs parent_id fields r)
  push_container-Step descs parent_id fields b (cid, c) s h =
      let n : NodeEntry = record { id = cid; parent = parent_id; detail = node_detail fields } in
      let k = add_node-known n c in
      let recorded = record_container-Step fields.fqn cid (add_node n c) k in
      Step-trans b c (push_container u digest descs parent_id fields (cid, c)) s (
        Step-trans c (add_node n c) (push_container u digest descs parent_id fields (cid, c))
          (add_node-Step n c (Known-later b c parent_id s h))
          (Step-trans (add_node n c)
            (record (add_node n c) { containers = insert fields.fqn cid (add_node n c).containers })
            (push_container u digest descs parent_id fields (cid, c)) recorded
            (handle_composable_nodes-Step descs cid
              (record (add_node n c) {
                containers = insert fields.fqn cid (add_node n c).containers;
              })
              (recorded.0 cid k))))

  pub container_in-Step :
      (pkg : Text) (action : NodeAction) (descs : List (Option Composable))
      (parent_id : Option Text) (b : Builder)
      → KnownParent b parent_id
      → Step b (container_in u digest pkg action descs parent_id b)
  container_in-Step [] action descs parent_id b h = Step-refl b
  container_in-Step (c ∷ pkg) action descs parent_id b h =
      push_container-Step descs parent_id _ b _ (uid-Step _ b) h

  -- The deferred composable nodes refer to their action and to its parent.
  pending_children-refers :
      (lcn_id target : Text) (parent_id : Option Text) (descs : List (Option Composable)) (x : Text)
      → child_refers (pending_children u digest lcn_id target parent_id descs) x ≡ true
      → (text_eq lcn_id x || is_text parent_id x) ≡ true
  unfolding child_refers pending_children
  pending_children-refers lcn_id target parent_id [] x h = absurd (cc)
  pending_children-refers lcn_id target parent_id (desc ∷ descs) x h =
      ground (arith, pending_children-refers lcn_id target parent_id descs x)

  push_load-Step :
      (target ns : Text) (descs : List (Option Composable)) (parent_id : Option Text) (b : Builder)
      (r : Text × Builder)
      → Step b r.1
      → KnownParent b parent_id
      → Step b (push_load u digest target ns descs parent_id r)
  unfolding target_refers
  push_load-Step target ns descs parent_id b (lcn_id, c) s h =
      let n : NodeEntry = record {
        id = lcn_id;
        parent = parent_id;
        detail = load_detail target ns;
      } in
      Step-trans b c (push_load u digest target ns descs parent_id (lcn_id, c)) s (
        Step-trans c (add_node n c) (push_load u digest target ns descs parent_id (lcn_id, c))
          (add_node-Step n c (Known-later b c parent_id s h))
          (deferred (add_node n c) (add_node-known n c) (
            Known-later c (add_node n c) parent_id
              (add_node-Step n c (Known-later b c parent_id s h)) (Known-later b c parent_id s h))))
    where
      deferred :
          (d : Builder)
          → known d lcn_id ≡ true
          → KnownParent d parent_id
          → Step d (record d {
            pending_load_targets = d.pending_load_targets ++ (lcn_id, target) ∷ [];
            pending_composable_children =
                d.pending_composable_children
                ++ pending_children u digest lcn_id target parent_id descs;
          })
      deferred d k kp = (
        λ x e. e,
        λ i. (
          λ x e. ground (
            arith,
            target_refers-append d.pending_load_targets ((lcn_id, target) ∷ []) x,
            child_refers-append d.pending_composable_children
                (pending_children u digest lcn_id target parent_id descs) x,
            pending_children-refers lcn_id target parent_id descs x,
            i.0 x,
            Known-some d lcn_id k x,
            kp x,
          ),
          i.1,
        ),
      )

  pub load_in-Step :
      (target ns : Text) (descs : List (Option Composable)) (parent_id : Option Text) (b : Builder)
      → KnownParent b parent_id
      → Step b (load_in u digest target ns descs parent_id b)
  load_in-Step [] ns descs parent_id b h = Step-refl b
  load_in-Step (c ∷ target) ns descs parent_id b h =
      push_load-Step (c ∷ target) ns descs parent_id b
        (uid (chars "lcn" ∷ (c ∷ target) ∷ ns ∷ []) b) (uid-Step _ b) h

  pub executable_in-Step :
      (cmd : Text) (name parent_id : Option Text) (b : Builder)
      → KnownParent b parent_id
      → Step b (executable_in u digest cmd name parent_id b)
  executable_in-Step [] name parent_id b h = Step-refl b
  executable_in-Step (c ∷ cmd) name parent_id b h =
      let shown = or_text name (first_or_empty u digest (split_words u (c ∷ cmd))) in
      push_executable-Step shown (c ∷ cmd) parent_id b (uid (chars "exec" ∷ shown ∷ []) b)
        (uid-Step (chars "exec" ∷ shown ∷ []) b) h
    where
      push_executable-Step :
          (shown cmd : Text) (parent_id : Option Text) (b : Builder) (r : Text × Builder)
          → Step b r.1
          → KnownParent b parent_id
          → Step b (push_executable u digest shown cmd parent_id r)
      push_executable-Step shown cmd parent_id b (eid, c) s h =
          Step-trans b c (push_executable u digest shown cmd parent_id (eid, c)) s
            (add_node-Step _ c (Known-later b c parent_id s h))
