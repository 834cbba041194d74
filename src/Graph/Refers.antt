-- ===== src/Graph/Refers.antt =====
-- The ids that a builder of the graph has, and the ids that its elements refer to.
use roscope.Base.{
  Text, Dict, Bool, true, false, ◌||◌, List, [], ◌∷◌, ◌++◌, Option, none, some, lookup, insert,
  text_eq, text_eq_iff, ◌≡◌, refl, any, arith, Bool-cases, inl, inr,
}
use roscope.Graph.{NodeEntry, GroupEntry, Edge, Pending, Builder}

abbrev pub is_text : Option Text → Text → Bool
is_text none x = false
is_text (some t) x = text_eq t x

unfoldable pub has_node : List NodeEntry → Text → Bool
has_node nodes x = any (λ n. text_eq n.id x) nodes

unfoldable pub has_group : List GroupEntry → Text → Bool
has_group groups x = any (λ g. text_eq g.id x) groups

unfoldable pub has_value : Dict Text → Text → Bool
has_value d x = any (λ c. text_eq c.1 x) d

unfoldable pub node_refers : List NodeEntry → Text → Bool
node_refers nodes x = any (λ n. is_text n.parent x) nodes

unfoldable pub group_refers : List GroupEntry → Text → Bool
group_refers groups x = any (λ g. is_text g.parent x) groups

unfoldable pub edge_refers : List Edge → Text → Bool
edge_refers edges x = any (λ e. text_eq e.source x || text_eq e.target x) edges

unfoldable pub target_refers : List (Text × Text) → Text → Bool
target_refers pending x = any (λ p. text_eq p.0 x) pending

unfoldable pub child_refers : List Pending → Text → Bool
child_refers pending x = any (λ p. text_eq p.lcn_id x || is_text p.fallback_parent x) pending

abbrev pub known : Builder → Text → Bool
known b x = has_node b.nodes x || has_group b.groups x || has_value b.connections x

abbrev pub refers : Builder → Text → Bool
refers b x =
    node_refers b.nodes x
    || group_refers b.groups x
    || edge_refers b.edges x
    || has_value b.containers x
    || target_refers b.pending_load_targets x
    || child_refers b.pending_composable_children x

any-append {ℓ} :
    {A : Type ℓ} (p : A → Bool) (xs ys : List A) → any p (xs ++ ys) ≡ (any p xs || any p ys)
any-append p [] ys = refl
any-append p (x ∷ xs) ys = ground (arith, any-append p xs ys)

pub has_node-append :
    (xs ys : List NodeEntry) (x : Text) → has_node (xs ++ ys) x ≡ (has_node xs x || has_node ys x)
unfolding has_node
has_node-append xs ys x = any-append _ xs ys

pub has_group-append :
    (xs ys : List GroupEntry) (x : Text)
    → has_group (xs ++ ys) x ≡ (has_group xs x || has_group ys x)
unfolding has_group
has_group-append xs ys x = any-append _ xs ys

pub node_refers-append :
    (xs ys : List NodeEntry) (x : Text)
    → node_refers (xs ++ ys) x ≡ (node_refers xs x || node_refers ys x)
unfolding node_refers
node_refers-append xs ys x = any-append _ xs ys

pub group_refers-append :
    (xs ys : List GroupEntry) (x : Text)
    → group_refers (xs ++ ys) x ≡ (group_refers xs x || group_refers ys x)
unfolding group_refers
group_refers-append xs ys x = any-append _ xs ys

pub edge_refers-append :
    (xs ys : List Edge) (x : Text)
    → edge_refers (xs ++ ys) x ≡ (edge_refers xs x || edge_refers ys x)
unfolding edge_refers
edge_refers-append xs ys x = any-append _ xs ys

pub target_refers-append :
    (xs ys : List (Text × Text)) (x : Text)
    → target_refers (xs ++ ys) x ≡ (target_refers xs x || target_refers ys x)
unfolding target_refers
target_refers-append xs ys x = any-append _ xs ys

pub child_refers-append :
    (xs ys : List Pending) (x : Text)
    → child_refers (xs ++ ys) x ≡ (child_refers xs x || child_refers ys x)
unfolding child_refers
child_refers-append xs ys x = any-append _ xs ys

-- A new key adds its value, and an old one can only lose its former value.
pub has_value-insert :
    (k v : Text) (d : Dict Text) (x : Text)
    → has_value (insert k v d) x ≡ true
    → (text_eq v x || has_value d x) ≡ true
unfolding has_value insert
has_value-insert k v [] x h = ground arith
has_value-insert k v ((j, w) ∷ d) x h = elim (Bool-cases (text_eq j k)) [
  | inl same ↦ ground arith
  | inr other ↦ ground (arith, has_value-insert k v d x)
]

pub has_value-insert_new :
    (k v : Text) (d : Dict Text) (x : Text)
    → lookup k d ≡ none
    → has_value (insert k v d) x ≡ (has_value d x || text_eq v x)
unfolding has_value insert lookup
has_value-insert_new k v [] x h = ground arith
has_value-insert_new k v ((j, w) ∷ d) x h = elim (Bool-cases (text_eq j k)) [
  | inl same ↦ absurd (ground arith)
  | inr other ↦ ground (arith, has_value-insert_new k v d x)
]

pub lookup-has_value : (k v : Text) (d : Dict Text) → lookup k d ≡ some v → has_value d v ≡ true
unfolding has_value lookup
lookup-has_value k v [] h = absurd (cc)
lookup-has_value k v ((j, w) ∷ d) h = elim (Bool-cases (text_eq j k)) [
  | inl same ↦ ground (arith, text_eq_iff w v)
  | inr other ↦ ground (arith, lookup-has_value k v d)
]
