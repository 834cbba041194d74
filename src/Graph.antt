-- ===== src/Graph.antt =====
-- The graph of a resolved launch file, of roscope/visualizer/graph.py: its elements, the state of
-- `_GraphBuilder`, the ids, and the connections.
mod Remaps
mod Tree
mod Walk
mod Loads
mod Refers
mod Steps
mod Connected
mod Handled
mod Wired
mod Loaded
mod Closed
mod Named
mod Tests
use Prim.Native.Nat.{◌%◌, ◌/◌}
use roscope.Base.{
  ℕ, zero, suc, ◌+◌, ◌==◌, ltb, Text, Dict, chars, Bool, true, false, not, List, [], ◌∷◌, ◌++◌,
  Option, none, some, lookup, insert, contains_text, rstrip, starts_with, if◌then◌else◌,
}
use roscope.Namespace.{slash, is_absolute}
use roscope.Connection.{Family, protocol_family}

-- `{"name": k, "value": v}`, and `{"from": r[0], "to": r[1]}`
abbrev pub Pairs : Type 0
Pairs = List (Text × Text)

-- The fields that the kinds of nodes do not share.
pub record NodeFields : Type 0 where
  pub kind : Text
  pub pkg : Text
  pub executable : Text
  pub name : Text
  pub ns : Text
  pub fqn : Text
  pub color : Text
  pub params : Pairs
  pub remaps : Pairs

pub data Detail : Type 0 where
  node_detail : NodeFields → Detail
  -- The executable is the plugin here; the extra arguments come last.
  composable_detail : NodeFields → Pairs → Detail
  -- target and namespace
  load_detail : Text → Text → Detail
  -- name and command
  executable_detail : Text → Text → Detail

pub record NodeEntry : Type 0 where
  pub id : Text
  pub parent : Option Text
  pub detail : Detail

-- An `ArgComment`: name, value and whether the value is the default.
pub record Arg : Type 0 where
  pub name : Text
  pub value : Text
  pub is_default : Bool

pub data GroupType : Type 0 where
  include lcn_wrapper : GroupType

pub record GroupEntry : Type 0 where
  pub id : Text
  pub file : Option Text
  pub parent : Option Text
  pub group_type : GroupType
  pub args : List Arg
  pub include_args : Option (Dict Text)

pub data EdgeType : Type 0 where
  -- whether it is directed, and the type of the connection
  remap : Bool → Text → EdgeType
  load_target : EdgeType

pub record Edge : Type 0 where
  pub source : Text
  pub target : Text
  pub edge_type : EdgeType

-- The name of a connection, and its family; none is "unknown".
pub record ConnectionMeta : Type 0 where
  pub name : Text
  pub family : Option Family

-- The `_resolved_data` of a composable node. A missing text is empty, as it is for `data.get`,
-- and so is a null.
pub record Composable : Type 0 where
  pub pkg : Text
  pub plugin : Text
  pub name : Text
  pub ns : Option Text
  pub param_files : List Pairs
  pub parameters : Pairs
  pub remappings : Pairs
  pub remap_metadata : Option (Dict (Dict Text))
  pub extra_arguments : Pairs

-- A deferred composable node: the id of its action, its target, and the parent to fall back on.
pub record Pending : Type 0 where
  pub lcn_id : Text
  pub target_name : Text
  pub desc : Option Composable
  pub fallback_parent : Option Text

pub record Builder : Type 0 where
  pub nodes : List NodeEntry
  pub groups : List GroupEntry
  pub connections : Dict Text
  pub connection_meta : Dict ConnectionMeta
  pub edges : List Edge
  pub containers : Dict Text
  pub pending_load_targets : List (Text × Text)
  pub pending_composable_children : List Pending
  pub uid_counters : Dict ℕ

abbrev pub new_builder : Builder
new_builder = record {
  nodes = [];
  groups = [];
  connections = [];
  connection_meta = [];
  edges = [];
  containers = [];
  pending_load_targets = [];
  pending_composable_children = [];
  uid_counters = [];
}

-- `a or b`, where `a` may be `None`
abbrev pub or_text : Option Text → Text → Text
or_text none b = b
or_text (some []) b = b
or_text (some (c ∷ s)) b = c ∷ s

abbrev digits_onto : ℕ → ℕ → Text → Text
digits_onto zero n s = s
digits_onto (suc fuel) n s = elim (ltb n 10) [
  | true ↦ (b'0' + n) ∷ s
  | false ↦ digits_onto fuel (n / 10) ((b'0' + n % 10) ∷ s)
]

-- A number in an f-string: a number has fewer digits than its successor counts.
unfoldable pub decimal : ℕ → Text
decimal n = digits_onto (suc n) n []

-- `"/".join(p for p in parts if p)`
unfoldable pub join_parts : List Text → Text
join_parts [] = []
join_parts ([] ∷ parts) = join_parts parts
join_parts ((c ∷ p) ∷ parts) = elim (join_parts parts) [
  | [] ↦ c ∷ p
  | d ∷ rest ↦ (c ∷ p) ++ slash ∷ d ∷ rest
]

abbrev count_of : Option ℕ → ℕ
count_of none = 0
count_of (some count) = count

-- `_uid`
unfoldable pub uid : List Text → Builder → Text × Builder
unfolding decimal join_parts
uid parts b =
    let base = join_parts parts in
    let count = count_of (lookup base b.uid_counters) in
    (
      (if count == 0 then base else base ++ b'#' ∷ decimal count),
      record b { uid_counters = insert base (count + 1) b.uid_counters },
    )

-- What `_get_or_create_connection` resolves a name to.
unfoldable pub absolute_name : Text → Text → Text → Text
absolute_name conn_name node_fqn node_ns = elim conn_name [
  | [] ↦ rstrip slash node_ns ++ slash ∷ []
  | c ∷ rest ↦
      if starts_with (chars "~/") (c ∷ rest)
      then rstrip slash node_fqn ++ slash ∷ drop_one rest
      else if is_absolute (c ∷ rest)
      then c ∷ rest
      else rstrip slash node_ns ++ slash ∷ c ∷ rest
]
  where
    drop_one : Text → Text
    drop_one [] = []
    drop_one (c ∷ s) = s

-- The first family that is known stays.
abbrev pub take_family : Option Family → ConnectionMeta → ConnectionMeta
take_family none m = m
take_family (some f) m = elim m.family [ none ↦ record m { family = some f } | some old ↦ m ]

-- Every connection has an entry of `_connection_meta`.
abbrev pub update_meta : Text → Option Family → Builder → Option ConnectionMeta → Builder
update_meta cid family b none = b
update_meta cid family b (some m) = record b {
  connection_meta = insert cid (take_family family m) b.connection_meta;
}

abbrev pub create_connection : Text → Option Family → Text × Builder → Text × Builder
create_connection name family (cid, b) = (
  cid,
  record b {
    connections = insert name cid b.connections;
    connection_meta = insert cid (record { name = name; family = family }) b.connection_meta;
  },
)

abbrev pub found_or_created : Text → Option Family → Builder → Option Text → Text × Builder
unfolding uid
found_or_created name family b (some cid) =
    (cid, update_meta cid family b (lookup cid b.connection_meta))
found_or_created name family b none =
    create_connection name family (uid (chars "connection" ∷ name ∷ []) b)

unfoldable pub connection_named : Text → Option Family → Builder → Text × Builder
connection_named name family b = found_or_created name family b (lookup name b.connections)

-- `_get_or_create_connection`
abbrev pub get_or_create_connection : Text → Text → Text → Option Family → Builder → Text × Builder
get_or_create_connection conn_name node_fqn node_ns family =
    connection_named (absolute_name conn_name node_fqn node_ns) family
