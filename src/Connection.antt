-- ===== src/Connection.antt =====
-- The connections that a plugin reports for a node: roscope/plugin.py, and of
-- roscope/entities/launch_context.py the registry that they are recorded in.
pub mod WellFormed
pub mod Typed
pub mod Consistent
mod Tests
use roscope.Base.{
  Text, Dict, chars, Bool, true, false, not, ◌&&◌, ◌||◌, List, [], ◌∷◌, ◌++◌, Option, none, some,
  Result, return, raise, lookup, insert, contains_text, text_eq, if◌then◌else◌, any, map,
}
use roscope.Namespace.{truthy, expand_connection_name}

pub data Family : Type 0 where
  topic service action : Family

abbrev pub recognized_types : List Text
recognized_types =
    chars "publisher"
    ∷ chars "subscription"
    ∷ chars "service_client"
    ∷ chars "service_server"
    ∷ chars "action_client"
    ∷ chars "action_server"
    ∷ []

-- `PROTOCOL_FAMILY`
abbrev pub protocol_family : Dict Family
protocol_family =
    (chars "publisher", topic)
    ∷ (chars "subscription", topic)
    ∷ (chars "service_client", service)
    ∷ (chars "service_server", service)
    ∷ (chars "action_client", action)
    ∷ (chars "action_server", action)
    ∷ []

abbrev pub same_family : Family → Family → Bool
same_family topic topic = true
same_family service service = true
same_family action action = true
same_family _ _ = false

-- The package, the executable or plugin name, and the type.
pub record Connection : Type 0 where
  pub pkg : Text
  pub exe : Text
  pub conn_type : Text

-- The registry, and the names for which a conflict was logged, the last first.
pub record Registry : Type 0 where
  pub connection_registry : Dict (List Connection)
  pub conflicts : List Text

abbrev pub or_no_entries : Option (List Connection) → List Connection
or_no_entries none = []
or_no_entries (some entries) = entries

-- A type without a family cannot be here, since `register_connection` returns before.
abbrev pub is_family : Family → Option Family → Bool
is_family family none = true
is_family family (some f) = same_family family f

abbrev pub in_family : Family → Text → Bool
in_family family conn_type = is_family family (lookup conn_type protocol_family)

-- `len(families) > 1`, of entries of which the last has the given family.
unfoldable pub is_mixed : Family → List Connection → Bool
is_mixed family entries = any (λ e. not (in_family family e.conn_type)) entries

abbrev pub record_entries : Text → Family → List Connection → Registry → Registry
record_entries resolved_to family entries r = record r {
  connection_registry = insert resolved_to entries r.connection_registry;
  conflicts = if is_mixed family entries then resolved_to ∷ r.conflicts else r.conflicts;
}

-- What `register_connection` does with the family of the type.
abbrev pub register_in : Text → Connection → Registry → Option Family → Registry
register_in resolved_to c r none = r
register_in resolved_to c r (some family) =
    record_entries resolved_to family
      (or_no_entries (lookup resolved_to r.connection_registry) ++ c ∷ []) r

unfoldable pub register_connection : Text → Connection → Registry → Registry
register_connection resolved_to c r =
    register_in resolved_to c r (lookup c.conn_type protocol_family)

-- The `ValueError` of `call_plugin`.
pub data PluginError : Type 0 where
  not_exactly_one : PluginError

abbrev pub same_bool : Bool → Bool → Bool
same_bool a b = a && b || not a && not b

-- The metadata of a connection is the plugin's; the program reads its entry "type",
-- which is a text where it is there.
module _ (Meta : Type 0) (type_of : Meta → Option Text) where
  -- What `get_connections` returns. An entry has no key here where its key is no string, and no
  -- metadata where that is no dictionary.
  pub data Returned : Type 0 where
    raised nothing not_a_dict : Returned
    dict : List (Option Text × Option Meta) → Returned

  abbrev pub is_recognized : Option Text → Bool
  is_recognized none = true
  is_recognized (some t) = contains_text recognized_types t

  -- One round of the loop of `call_plugin`.
  abbrev pub validate_entry : Option Text → Option Meta → Dict Meta → Dict Meta
  validate_entry none meta validated = validated
  validate_entry (some connection) none validated = validated
  validate_entry (some connection) (some meta) validated =
      if is_recognized (type_of meta) then insert connection meta validated else validated

  unfoldable pub validate : List (Option Text × Option Meta) → Dict Meta → Dict Meta
  validate [] validated = validated
  validate ((connection, meta) ∷ entries) validated =
      validate entries (validate_entry connection meta validated)

  abbrev pub covered : Returned → Option (Dict Meta)
  covered raised = some []
  covered nothing = none
  covered not_a_dict = some []
  covered (dict entries) = some (validate entries [])

  -- The plugin takes the executable and the plugin name; its other arguments are fixed.
  abbrev pub Plugin : Type 0
  Plugin = Option Text → Option Text → Returned

  unfoldable pub call_plugin :
      Option Plugin → Option Text → Option Text → Result PluginError (Option (Dict Meta))
  unfolding validate
  call_plugin none executable plugin_name = return none
  call_plugin (some plugin_fn) executable plugin_name =
      if same_bool (truthy executable) (truthy plugin_name)
      then raise not_exactly_one
      else return (covered (plugin_fn executable plugin_name))

  -- `remaps.append([conn, conn])` for the connections that no remapping names.
  unfoldable pub extend_remaps : List Text → Dict Meta → List (Text × Text) → List (Text × Text)
  extend_remaps existing_froms [] remaps = remaps
  extend_remaps existing_froms ((conn, meta) ∷ metas) remaps =
      extend_remaps existing_froms metas
        (if contains_text existing_froms conn then remaps else remaps ++ (conn, conn) ∷ [])

  -- `remap_to`: the last remapping of a name counts.
  unfoldable pub to_dict : List (Text × Text) → Dict Text → Dict Text
  to_dict [] remap_to = remap_to
  to_dict ((src, dst) ∷ remaps) remap_to = to_dict remaps (insert src dst remap_to)

  abbrev pub get_or : Text → Option Text → Text
  get_or conn none = conn
  get_or conn (some target) = target

  -- The node for which the connections are recorded.
  pub record Node : Type 0 where
    pub pkg : Text
    pub identifier : Text
    pub node_ns : Option Text
    pub node_name : Option Text

  -- One round of the last loop of `apply_connection_plugin`.
  abbrev pub register_typed : Node → Dict Text → Text → Option Text → Registry → Registry
  register_typed node remap_to conn none r = r
  register_typed node remap_to conn (some []) r = r
  register_typed node remap_to conn (some (c ∷ conn_type)) r =
      register_connection
        (expand_connection_name (get_or conn (lookup conn remap_to)) node.node_ns node.node_name)
        (record { pkg = node.pkg; exe = node.identifier; conn_type = c ∷ conn_type }) r

  unfoldable pub register_all : Node → Dict Text → Dict Meta → Registry → Registry
  unfolding register_connection expand_connection_name
  register_all node remap_to [] r = r
  register_all node remap_to ((conn, meta) ∷ metas) r =
      register_all node remap_to metas (register_typed node remap_to conn (type_of meta) r)

  -- What `apply_connection_plugin` does with the answer of the plugin: its own result, the
  -- remappings that it leaves, and the registry.
  unfoldable pub apply_answer :
      Node
      → Option (Dict Meta)
      → List (Text × Text)
      → Registry
      → Option (Dict Meta) × (List (Text × Text) × Registry)
  unfolding extend_remaps register_all to_dict
  apply_answer node none remaps r = (none, (remaps, r))
  apply_answer node (some metas) remaps r =
      let extended = extend_remaps (map (λ m. m.0) remaps) metas remaps in
      (some metas, (extended, register_all node (to_dict extended []) metas r))
