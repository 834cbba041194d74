-- ===== src/Connection/Consistent.antt =====
-- What it means that no conflict was logged: `register_connection` of
-- roscope/entities/launch_context.py.
use roscope.Base.{
  Text, Dict, Bool, true, false, not, ◌||◌, List, [], ◌∷◌, ◌++◌, Option, none, some, lookup,
  if◌then◌else◌, All, All-append, All-map, ◌≡◌, refl, ◌∙◌,
}
use roscope.Connection.{
  Family, topic, service, action, same_family, in_family, is_family, register_in, protocol_family,
  Connection, Registry, or_no_entries, is_mixed, register_connection, Node, register_typed,
  register_all, apply_answer,
}
use roscope.Connection.WellFormed.{All-insert, All-lookup, HasFamily}

-- The connection's type is of the family.
abbrev pub IsIn : Family → Connection → Type 0
IsIn family c = lookup c.conn_type protocol_family ≡ some family

-- The connections of each name are of one family.
abbrev pub IsConsistent : Registry → Type 0
IsConsistent r = All (λ e. (family : Family) × All (IsIn family) e.1) r.connection_registry

same_family-eq : (f g : Family) → same_family f g ≡ true → f ≡ g
same_family-eq topic topic e = refl
same_family-eq service service e = refl
same_family-eq action action e = refl
same_family-eq topic service e = cc
same_family-eq topic action e = cc
same_family-eq service topic e = cc
same_family-eq service action e = cc
same_family-eq action topic e = cc
same_family-eq action service e = cc

is_family-eq : (f g : Family) → is_family f (some g) ≡ true → some g ≡ some f
is_family-eq f g e = rw (same_family-eq f g e) refl

unmixed-split : (a b : Bool) → not a || b ≡ false → (a ≡ true) × (b ≡ false)
unmixed-split true b e = (refl, e)
unmixed-split false b e = cc

unmixed-IsIn :
    (family : Family) (entries : List Connection)
    → All HasFamily entries
    → is_mixed family entries ≡ false
    → All (IsIn family) entries
unfolding is_mixed
unmixed-IsIn family [] h e = tt
unmixed-IsIn family (c ∷ entries) ((g, known), h) e =
    let both = unmixed-split (in_family family c.conn_type) _ e in
    (known ∙ is_family-eq family g (rw known at both.0), unmixed-IsIn family entries h both.1)

or_no_entries-HasFamily :
    (resolved_to : Text) (r : Registry) (found : Option (List Connection))
    → lookup resolved_to r.connection_registry ≡ found
    → IsConsistent r
    → All HasFamily (or_no_entries found)
or_no_entries-HasFamily resolved_to r none e h = tt
or_no_entries-HasFamily resolved_to r (some entries) e h =
    let one =
      All-lookup (λ e. (family : Family) × All (IsIn family) e.1) resolved_to entries
        r.connection_registry e h in
    All-map (IsIn one.0) HasFamily entries (λ c known. (one.0, known)) one.1

unlogged :
    (b : Bool) (name : Text) (names : List Text)
    → (if b then name ∷ names else names) ≡ []
    → (b ≡ false) × (names ≡ [])
unlogged true name names e = cc
unlogged false name names e = (refl, e)

register_in-IsConsistent :
    (resolved_to : Text) (c : Connection) (r : Registry) (found : Option Family)
    → lookup c.conn_type protocol_family ≡ found
    → (register_in resolved_to c r found).conflicts ≡ []
    → IsConsistent r
    → IsConsistent (register_in resolved_to c r found)
register_in-IsConsistent resolved_to c r none known e h = h
register_in-IsConsistent resolved_to c r (some family) known e h =
    let entries = or_no_entries (lookup resolved_to r.connection_registry) in
    let clear = unlogged (is_mixed family (entries ++ c ∷ [])) resolved_to r.conflicts e in
    All-insert (λ e. (family : Family) × All (IsIn family) e.1) resolved_to _ r.connection_registry
      (
        family,
        unmixed-IsIn family (entries ++ c ∷ [])
            (All-append HasFamily entries (c ∷ []) (or_no_entries-HasFamily resolved_to r _ refl h)
              ((family, known), tt))
            clear.0,
      )
      h

register_in-conflicts :
    (resolved_to : Text) (c : Connection) (r : Registry) (found : Option Family)
    → (register_in resolved_to c r found).conflicts ≡ []
    → r.conflicts ≡ []
register_in-conflicts resolved_to c r none e = e
register_in-conflicts resolved_to c r (some family) e =
    (unlogged (is_mixed family (or_no_entries (lookup resolved_to r.connection_registry) ++ c ∷ []))
      resolved_to r.conflicts e).1

module _ (Meta : Type 0) (type_of : Meta → Option Text) (node : Node Meta type_of) where
  register_typed-conflicts :
      (remap_to : Dict Text) (conn : Text) (conn_type : Option Text) (r : Registry)
      → (register_typed Meta type_of node remap_to conn conn_type r).conflicts ≡ []
      → r.conflicts ≡ []
  unfolding register_connection
  register_typed-conflicts remap_to conn none r e = e
  register_typed-conflicts remap_to conn (some []) r e = e
  register_typed-conflicts remap_to conn (some (c ∷ conn_type)) r e =
      register_in-conflicts _ _ r (lookup (c ∷ conn_type) protocol_family) e

  register_typed-IsConsistent :
      (remap_to : Dict Text) (conn : Text) (conn_type : Option Text) (r : Registry)
      → (register_typed Meta type_of node remap_to conn conn_type r).conflicts ≡ []
      → IsConsistent r
      → IsConsistent (register_typed Meta type_of node remap_to conn conn_type r)
  unfolding register_connection
  register_typed-IsConsistent remap_to conn none r e h = h
  register_typed-IsConsistent remap_to conn (some []) r e h = h
  register_typed-IsConsistent remap_to conn (some (c ∷ conn_type)) r e h =
      register_in-IsConsistent _ _ r (lookup (c ∷ conn_type) protocol_family) refl e h

  register_all-conflicts :
      (remap_to : Dict Text) (metas : Dict Meta) (r : Registry)
      → (register_all Meta type_of node remap_to metas r).conflicts ≡ []
      → r.conflicts ≡ []
  unfolding register_all
  register_all-conflicts remap_to [] r e = e
  register_all-conflicts remap_to ((conn, meta) ∷ metas) r e =
      register_typed-conflicts remap_to conn (type_of meta) r
        (register_all-conflicts remap_to metas _ e)

  register_all-IsConsistent :
      (remap_to : Dict Text) (metas : Dict Meta) (r : Registry)
      → (register_all Meta type_of node remap_to metas r).conflicts ≡ []
      → IsConsistent r
      → IsConsistent (register_all Meta type_of node remap_to metas r)
  unfolding register_all
  register_all-IsConsistent remap_to [] r e h = h
  register_all-IsConsistent remap_to ((conn, meta) ∷ metas) r e h =
      register_all-IsConsistent remap_to metas _ e (
        register_typed-IsConsistent remap_to conn (type_of meta) r
          (register_all-conflicts remap_to metas _ e) h)

  -- If no conflict is logged up to the end of an answer of the plugin, then each name of the
  -- registry has connections of one protocol family only, provided that it had before.
  pub apply_answer-IsConsistent :
      (answer : Option (Dict Meta)) (remaps : List (Text × Text)) (r : Registry)
      → (apply_answer Meta type_of node answer remaps r).1.1.conflicts ≡ []
      → IsConsistent r
      → IsConsistent (apply_answer Meta type_of node answer remaps r).1.1
  unfolding apply_answer
  apply_answer-IsConsistent none remaps r e h = h
  apply_answer-IsConsistent (some metas) remaps r e h = register_all-IsConsistent _ metas r e h
