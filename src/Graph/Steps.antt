-- ===== src/Graph/Steps.antt =====
-- What one step of the builder of the graph keeps: the ids that are known, and that all the ids
-- referred to are known.
use roscope.Base.{
  Text, chars, Bool, true, List, [], ◌∷◌, Option, none, some, lookup, keys, contains_text,
  text_eq_iff, ◌≡◌, ◌⊎◌, subst, refl, arith, inl, inr, contains_text-keys-insert,
}
use roscope.Connection.{Family}
use roscope.Graph.{
  NodeEntry, GroupEntry, Edge, ConnectionMeta, Builder, uid, connection_named, take_family,
  update_meta, create_connection, found_or_created,
}
use roscope.Graph.Remaps.{add_node, add_group, add_edge}
use roscope.Graph.Refers.{
  is_text, has_node, has_group, has_value, node_refers, group_refers, edge_refers, known, refers,
  has_node-append, has_group-append, node_refers-append, group_refers-append, edge_refers-append,
  has_value-insert_new, lookup-has_value,
}

abbrev pub Within : (Text → Bool) → (Text → Bool) → Type 0
Within p q = (x : Text) → p x ≡ true → q x ≡ true

-- All the ids referred to are known, and each connection has metadata.
abbrev pub IsSound : Builder → Type 0
IsSound b =
    Within (refers b) (known b)
    × Within (has_value b.connections) (contains_text (keys b.connection_meta))

abbrev pub Step : Builder → Builder → Type 0
Step b c = Within (known b) (known c) × (IsSound b → IsSound c)

pub Step-refl : (b : Builder) → Step b b
Step-refl b = (λ x h. h, λ s. s)

pub Step-trans : (a b c : Builder) → Step a b → Step b c → Step a c
Step-trans a b c s t = (λ x h. t.0 x (s.0 x h), λ i. t.1 (s.1 i))

abbrev pub KnownParent : Builder → Option Text → Type 0
KnownParent b parent = Within (is_text parent) (known b)

pub add_node-Step : (n : NodeEntry) (b : Builder) → KnownParent b n.parent → Step b (add_node n b)
unfolding has_node node_refers
add_node-Step n b h = (
  λ x k. ground (arith, has_node-append b.nodes (n ∷ []) x),
  λ s. (
    λ x r. ground (
      arith,
      has_node-append b.nodes (n ∷ []) x,
      node_refers-append b.nodes (n ∷ []) x,
      s.0 x,
      h x,
    ),
    s.1,
  ),
)

pub add_node-known : (n : NodeEntry) (b : Builder) → known (add_node n b) n.id ≡ true
unfolding has_node
add_node-known n b = ground (arith, has_node-append b.nodes (n ∷ []) n.id, text_eq_iff n.id n.id)

pub add_group-Step :
    (g : GroupEntry) (b : Builder) → KnownParent b g.parent → Step b (add_group g b)
unfolding has_group group_refers
add_group-Step g b h = (
  λ x k. ground (arith, has_group-append b.groups (g ∷ []) x),
  λ s. (
    λ x r. ground (
      arith,
      has_group-append b.groups (g ∷ []) x,
      group_refers-append b.groups (g ∷ []) x,
      s.0 x,
      h x,
    ),
    s.1,
  ),
)

pub add_group-known : (g : GroupEntry) (b : Builder) → known (add_group g b) g.id ≡ true
unfolding has_group
add_group-known g b = ground (arith, has_group-append b.groups (g ∷ []) g.id, text_eq_iff g.id g.id)

pub add_edge-Step :
    (e : Edge) (b : Builder)
    → known b e.source ≡ true
    → known b e.target ≡ true
    → Step b (add_edge e b)
unfolding edge_refers
add_edge-Step e b hs ht = (
  λ x k. k,
  λ s. (
    λ x r. elim (refers_cases x r) [
      | inl old ↦ s.0 x old
      | inr (inl same) ↦ subst (λ y. known b y ≡ true) same hs
      | inr (inr same) ↦ subst (λ y. known b y ≡ true) same ht
    ],
    s.1,
  ),
)
  where
    refers_cases :
        (x : Text)
        → refers (add_edge e b) x ≡ true
        → (refers b x ≡ true) ⊎ ((e.source ≡ x) ⊎ (e.target ≡ x))
    refers_cases x r = ground (
      arith,
      edge_refers-append b.edges (e ∷ []) x,
      text_eq_iff e.source x,
      text_eq_iff e.target x,
    )

-- An id is given out: only the counters of the ids change.
pub uid-Step : (parts : List Text) (b : Builder) → Step b (uid parts b).1
unfolding uid
uid-Step parts b = Step-refl b

create_connection-Step :
    (name : Text) (family : Option Family) (cid : Text) (b : Builder)
    → lookup name b.connections ≡ none
    → Step b (create_connection name family (cid, b)).1
create_connection-Step name family cid b h = (
  λ x k. ground (arith, has_value-insert_new name cid b.connections x h),
  λ s. (
    λ x r. ground (arith, has_value-insert_new name cid b.connections x h, s.0 x),
    λ x r. ground (
      arith,
      has_value-insert_new name cid b.connections x h,
      s.1 x,
      contains_text-keys-insert cid x (record { name = name; family = family }) b.connection_meta,
    ),
  ),
)

update_meta-Step :
    (cid : Text) (family : Option Family) (b : Builder) (m : Option ConnectionMeta)
    → Step b (update_meta cid family b m)
update_meta-Step cid family b none = Step-refl b
update_meta-Step cid family b (some m) = (
  λ x k. k,
  λ s. (
    s.0,
    λ x r.
        ground
          (arith, s.1 x, contains_text-keys-insert cid x (take_family family m) b.connection_meta),
  ),
)

-- The second part of a pair is a builder that knows the first.
abbrev pub Gives : Builder → Text × Builder → Type 0
Gives b r = Step b r.1 × (known r.1 r.0 ≡ true)

found_or_created-Gives :
    (name : Text) (family : Option Family) (b : Builder) (found : Option Text)
    → lookup name b.connections ≡ found
    → Gives b (found_or_created name family b found)
unfolding uid
found_or_created-Gives name family b none e = (
  create_connection-Step name family _ (uid (chars "connection" ∷ name ∷ []) b).1 e,
  ground (
    arith,
    has_value-insert_new name (uid (chars "connection" ∷ name ∷ []) b).0 b.connections
        (uid (chars "connection" ∷ name ∷ []) b).0 e,
    text_eq_iff (uid (chars "connection" ∷ name ∷ []) b).0
        (uid (chars "connection" ∷ name ∷ []) b).0,
  ),
)
found_or_created-Gives name family b (some cid) e = (
  update_meta-Step cid family b (lookup cid b.connection_meta),
  ground (arith, lookup-has_value name cid b.connections e),
)

-- The id of a connection is known from then on.
pub connection_named-Gives :
    (name : Text) (family : Option Family) (b : Builder) → Gives b (connection_named name family b)
unfolding connection_named
connection_named-Gives name family b =
    found_or_created-Gives name family b (lookup name b.connections) refl

pub Known-some : (b : Builder) (t : Text) → known b t ≡ true → KnownParent b (some t)
Known-some b t h x e = subst (λ y. known b y ≡ true) ((text_eq_iff t x).0 e) h

pub Known-later :
    (b c : Builder) (parent : Option Text) → Step b c → KnownParent b parent → KnownParent c parent
Known-later b c parent s h x e = s.0 x (h x e)
