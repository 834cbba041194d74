-- ===== src/Connection/WellFormed.antt =====
-- What the registry holds: `register_connection` and `apply_connection_plugin` of
-- roscope/entities/launch_context.py.
use roscope.Base.{
  Text, Dict, true, List, [], ◌∷◌, Option, none, some, Result, return, lookup, insert, text_eq, All,
  All-append, ◌≡◌, refl, inl, inr, Bool-cases, text_eq_iff, subst, sym,
}
use roscope.Namespace.{is_absolute}
use roscope.Namespace.Absolute.{IsRooted, expand_connection_name_idem}
use roscope.Connection.{
  Family, protocol_family, Connection, Registry, or_no_entries, register_in, register_connection,
  Node, register_typed, register_all, apply_answer,
}

module _ {V : Type 0} (P : Text × V → Type 0) where
  pub All-insert : (k : Text) (v : V) (d : Dict V) → P (k, v) → All P d → All P (insert k v d)
  unfolding insert
  All-insert k v [] new h = (new, tt)
  All-insert k v ((j, w) ∷ d) new h = elim (Bool-cases (text_eq j k)) [
    | inl same ↦ rw same (subst (λ i. P (i, v)) (sym ((text_eq_iff j k).0 same)) new, h.1)
    | inr other ↦ rw other (h.0, All-insert k v d new h.1)
  ]

  same_value : (v w : V) → some v ≡ some w → v ≡ w
  same_value v w e = cc

  pub All-lookup : (k : Text) (v : V) (d : Dict V) → lookup k d ≡ some v → All P d → P (k, v)
  unfolding lookup
  All-lookup k v [] found h = cc
  All-lookup k v ((j, w) ∷ d) found h = elim (Bool-cases (text_eq j k)) [
    | inl same ↦
        subst (λ i. P (i, v)) ((text_eq_iff j k).0 same)
          (subst (λ x. P (j, x)) (same_value w v (rw same at found)) h.0)
    | inr other ↦ All-lookup k v d (rw other at found) h.1
  ]

pub some_same : {A : Type 0} (a b : A) → some a ≡ some b → a ≡ b
some_same a b e = cc

pub same_result : {E A : Type 0} (a b : A) → ◌≡◌ {A = Result E A} (return a) (return b) → a ≡ b
same_result a b e = cc

abbrev pub HasFamily : Connection → Type 0
HasFamily c = (family : Family) × (lookup c.conn_type protocol_family ≡ some family)

-- Every name of the registry is absolute, and every connection has a type with a family.
abbrev pub IsWellFormed : Registry → Type 0
IsWellFormed r = All (λ e. (is_absolute e.0 ≡ true) × All HasFamily e.1) r.connection_registry

or_no_entries-HasFamily :
    (resolved_to : Text) (r : Registry) (found : Option (List Connection))
    → lookup resolved_to r.connection_registry ≡ found
    → IsWellFormed r
    → All HasFamily (or_no_entries found)
or_no_entries-HasFamily resolved_to r none e h = tt
or_no_entries-HasFamily resolved_to r (some entries) e h =
    (All-lookup (λ e. (is_absolute e.0 ≡ true) × All HasFamily e.1) resolved_to entries
      r.connection_registry e h).1

register_in-IsWellFormed :
    (resolved_to : Text) (c : Connection) (r : Registry) (found : Option Family)
    → lookup c.conn_type protocol_family ≡ found
    → is_absolute resolved_to ≡ true
    → IsWellFormed r
    → IsWellFormed (register_in resolved_to c r found)
register_in-IsWellFormed resolved_to c r none e absolute h = h
register_in-IsWellFormed resolved_to c r (some family) e absolute h =
    All-insert (λ e. (is_absolute e.0 ≡ true) × All HasFamily e.1) resolved_to _
      r.connection_registry
      (
        absolute,
        All-append HasFamily _ (c ∷ []) (or_no_entries-HasFamily resolved_to r _ refl h)
            ((family, e), tt),
      )
      h

register_connection-IsWellFormed :
    (resolved_to : Text) (c : Connection) (r : Registry)
    → is_absolute resolved_to ≡ true
    → IsWellFormed r
    → IsWellFormed (register_connection resolved_to c r)
unfolding register_connection
register_connection-IsWellFormed resolved_to c r = register_in-IsWellFormed resolved_to c r _ refl

module _ (Meta : Type 0) (type_of : Meta → Option Text) where
  register_typed-IsWellFormed :
      (node : Node Meta type_of) (remap_to : Dict Text) (conn : Text) (conn_type : Option Text)
      (r : Registry)
      → IsRooted node.node_ns
      → IsWellFormed r
      → IsWellFormed (register_typed Meta type_of node remap_to conn conn_type r)
  register_typed-IsWellFormed node remap_to conn none r rooted h = h
  register_typed-IsWellFormed node remap_to conn (some []) r rooted h = h
  register_typed-IsWellFormed node remap_to conn (some (c ∷ conn_type)) r rooted h =
      register_connection-IsWellFormed _ _ r
        (expand_connection_name_idem _ node.node_ns node.node_name none none rooted).0 h

  register_all-IsWellFormed :
      (node : Node Meta type_of) (remap_to : Dict Text) (metas : Dict Meta) (r : Registry)
      → IsRooted node.node_ns
      → IsWellFormed r
      → IsWellFormed (register_all Meta type_of node remap_to metas r)
  unfolding register_all
  register_all-IsWellFormed node remap_to [] r rooted h = h
  register_all-IsWellFormed node remap_to ((conn, meta) ∷ metas) r rooted h =
      register_all-IsWellFormed node remap_to metas _ rooted
        (register_typed-IsWellFormed node remap_to conn (type_of meta) r rooted h)

  -- For a node whose namespace is absolute or unknown, and whatever the plugin answered, the
  -- registry stays well formed: its names are absolute, and its connections have types with a
  -- family.
  pub apply_answer-IsWellFormed :
      (node : Node Meta type_of) (answer : Option (Dict Meta)) (remaps : List (Text × Text))
      (r : Registry)
      → IsRooted node.node_ns
      → IsWellFormed r
      → IsWellFormed (apply_answer Meta type_of node answer remaps r).1.1
  unfolding apply_answer
  apply_answer-IsWellFormed node none remaps r rooted h = h
  apply_answer-IsWellFormed node (some metas) remaps r rooted h =
      register_all-IsWellFormed node _ metas r rooted h
