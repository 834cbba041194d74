-- ===== src/Graph/Loaded.antt =====
-- The second pass of the graph refers to known ids only.
use roscope.Base.{
  ℕ, Text, Dict, chars, Bool, true, false, ◌||◌, List, [], ◌∷◌, Option, none, some, lookup, insert,
  contains_text, text_eq, text_eq_iff, ◌≡◌, refl, any, arith, Bool-cases, if◌then◌else◌, inl, inr,
  Unicode,
}
use roscope.Graph.{GroupEntry, Edge, Pending, Builder, uid, lcn_wrapper, load_target}
use roscope.Graph.Walk.{handle_composable_node}
use roscope.Graph.Remaps.{add_group, add_edge}
use roscope.Graph.Loads.{
  Loads, append_child, lcn_groups_onto, or_parent, handle_children, push_wrapper, add_wrappers,
  to_container, link_containers, keys_of, resolve_load_targets,
}
use roscope.Graph.Refers.{is_text, target_refers, child_refers, known, lookup-has_value}
use roscope.Graph.Steps.{
  Within, IsSound, Step, Step-refl, Step-trans, KnownParent, Known-some, Known-later,
  add_group-Step, add_group-known, add_edge-Step, uid-Step,
}
use roscope.Graph.Handled.{handle_composable_node-Step}

unfoldable loads_refers : Dict Loads → Text → Bool
loads_refers groups x = any (λ g. text_eq g.0 x || is_text g.1.0.fallback_parent x) groups

append_child-refers :
    (child : Pending) (groups : Dict Loads) (x : Text)
    → loads_refers (insert child.lcn_id (append_child child (lookup child.lcn_id groups)) groups) x
      ≡ true
    → (text_eq child.lcn_id x || is_text child.fallback_parent x || loads_refers groups x) ≡ true
unfolding loads_refers insert lookup
append_child-refers child [] x h = ground arith
append_child-refers child ((j, (first, others)) ∷ groups) x h =
    elim (Bool-cases (text_eq j child.lcn_id)) [
      | inl same ↦ ground arith
      | inr other ↦ ground (arith, append_child-refers child groups x)
    ]

-- The groups refer only to what the deferred composable nodes refer to.
lcn_groups_onto-refers :
    (children : List Pending) (groups : Dict Loads) (x : Text)
    → loads_refers (lcn_groups_onto children groups) x ≡ true
    → (child_refers children x || loads_refers groups x) ≡ true
unfolding lcn_groups_onto child_refers
lcn_groups_onto-refers [] groups x h = h
lcn_groups_onto-refers (child ∷ children) groups x h =
    let grown = insert child.lcn_id (append_child child (lookup child.lcn_id groups)) groups in
    ground (arith, lcn_groups_onto-refers children grown x h, append_child-refers child groups x)

-- A container has a known id.
container-known :
    (b : Builder) (target cid : Text)
    → IsSound b
    → lookup target b.containers ≡ some cid
    → known b cid ≡ true
container-known b target cid s e =
    let h = lookup-has_value target cid b.containers e in s.0 cid (ground arith)

or_parent-Known :
    (b : Builder) (target : Text) (fallback : Option Text) (found : Option Text)
    → lookup target b.containers ≡ found
    → IsSound b
    → KnownParent b fallback
    → KnownParent b (or_parent found fallback)
or_parent-Known b target fallback none e s h = h
or_parent-Known b target fallback (some cid) e s h =
    Known-some b cid (container-known b target cid s e)

if-Step : (test : Bool) (b c d : Builder) → Step b c → Step b d → Step b (if test then c else d)
if-Step true b c d hc hd = hc
if-Step false b c d hc hd = hd

link_containers-Step :
    (names : List Text) (pending : List (Text × Text)) (b : Builder)
    → IsSound b
    → Within (target_refers pending) (known b)
    → Step b (link_containers names pending b)
unfolding link_containers target_refers
link_containers-Step names [] b s h = Step-refl b
link_containers-Step names ((lcn_id, target) ∷ pending) b s h =
    Step-trans b next (link_containers names pending next) step
      (link_containers-Step names pending next (step.1 s) (λ x k. step.0 x (h x (ground arith))))
  where
    to_container-Step :
        (found : Option Text)
        → lookup target b.containers ≡ found
        → Step b (to_container lcn_id found b)
    to_container-Step none e = Step-refl b
    to_container-Step (some []) e = Step-refl b
    to_container-Step (some (c ∷ cid)) e =
        add_edge-Step _ b (h lcn_id (ground (arith, text_eq_iff lcn_id lcn_id)))
          (container-known b target (c ∷ cid) s e)

    next : Builder
    next =
        if contains_text names lcn_id then b else to_container lcn_id (lookup target b.containers) b

    step : Step b next
    step =
        if-Step (contains_text names lcn_id) b b _ (Step-refl b)
          (to_container-Step (lookup target b.containers) refl)

module _ (u : Unicode) (digest : Text → ℕ) where
  handle_children-Step :
      (children : List Pending) (parent_id : Text) (b : Builder)
      → known b parent_id ≡ true
      → Step b (handle_children u digest children parent_id b)
  unfolding handle_children
  handle_children-Step [] parent_id b h = Step-refl b
  handle_children-Step (child ∷ children) parent_id b h =
      let next = handle_composable_node u digest child.desc parent_id b in
      let s = handle_composable_node-Step u digest child.desc parent_id b h in
      Step-trans b next (handle_children u digest children parent_id next) s
        (handle_children-Step children parent_id next (s.0 parent_id h))

  -- A wrapper is added for an action whose id is known, then the edge to it, then its children.
  push_wrapper-Step :
      (lcn_id : Text) (loads : Loads) (b : Builder) (r : Text × Builder)
      → Step b r.1
      → IsSound b
      → known b lcn_id ≡ true
      → KnownParent b loads.0.fallback_parent
      → Step b (push_wrapper u digest lcn_id loads r)
  push_wrapper-Step lcn_id (first, others) b (wrapper_id, c) s sound hl hp = Step-trans b c last s (
      Step-trans c grouped last grouped-Step (
        Step-trans grouped linked last linked-Step (
          handle_children-Step (first ∷ others) wrapper_id linked
            (linked-Step.0 wrapper_id wrapper-known))))
    where
      parent : Option Text
      parent = or_parent (lookup first.target_name c.containers) first.fallback_parent

      wrapper : GroupEntry
      wrapper = record {
        id = wrapper_id;
        file = none;
        parent = parent;
        group_type = lcn_wrapper;
        args = [];
        include_args = none;
      }

      edge : Edge
      edge = record { source = lcn_id; target = wrapper_id; edge_type = load_target }

      grouped : Builder
      grouped = add_group wrapper c

      linked : Builder
      linked = add_edge edge grouped

      last : Builder
      last = push_wrapper u digest lcn_id (first, others) (wrapper_id, c)

      grouped-Step : Step c grouped
      grouped-Step = add_group-Step wrapper c (
          or_parent-Known c first.target_name first.fallback_parent
            (lookup first.target_name c.containers) refl (s.1 sound)
            (Known-later b c first.fallback_parent s hp))

      wrapper-known : known grouped wrapper_id ≡ true
      wrapper-known = add_group-known wrapper c

      linked-Step : Step grouped linked
      linked-Step = add_edge-Step edge grouped (grouped-Step.0 lcn_id (s.0 lcn_id hl)) wrapper-known

  add_wrappers-Step :
      (groups : Dict Loads) (b : Builder)
      → IsSound b
      → Within (loads_refers groups) (known b)
      → Step b (add_wrappers u digest groups b)
  unfolding add_wrappers loads_refers
  add_wrappers-Step [] b s h = Step-refl b
  add_wrappers-Step ((lcn_id, loads) ∷ groups) b s h =
      let parts = chars "lcn_wrapper" ∷ lcn_id ∷ [] in
      let next = push_wrapper u digest lcn_id loads (uid parts b) in
      let step =
        push_wrapper-Step lcn_id loads b (uid parts b) (uid-Step parts b) s
          (h lcn_id (ground (arith, text_eq_iff lcn_id lcn_id))) (λ x e. h x (ground arith)) in
      Step-trans b next (add_wrappers u digest groups next) step
        (add_wrappers-Step groups next (step.1 s) (λ x e. step.0 x (h x (ground arith))))

  pub resolve_load_targets-IsSound :
      (b : Builder) → IsSound b → IsSound (resolve_load_targets u digest b)
  unfolding resolve_load_targets loads_refers
  resolve_load_targets-IsSound b s =
      let groups = lcn_groups_onto b.pending_composable_children [] in
      let wrapped = add_wrappers-Step groups b s (λ x e.
        let h = lcn_groups_onto-refers b.pending_composable_children [] x e in
        s.0 x (ground arith)) in
      (link_containers-Step (keys_of groups) b.pending_load_targets (add_wrappers u digest groups b)
          (wrapped.1 s) (λ x e. wrapped.0 x (s.0 x (ground arith)))).1
        (wrapped.1 s)
