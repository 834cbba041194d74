-- ===== src/Connection/Tests.antt =====
-- The theorems about plugins and their connections at concrete inputs.
use roscope.Base.{
  TextMem, keys, ◌↔◌, Text, chars, Option, none, some, [], ◌∷◌, refl, All, text_eq, insert,
  contains_text, lookup,
}
use roscope.Connection.{topic, dict, Plugin, call_plugin, validate, Node, Registry, apply_answer}
use roscope.Connection.{extend_remaps, to_dict, register_all, register_connection, is_mixed}
use roscope.Namespace.{expand_connection_name}
use roscope.Connection.Consistent.{IsConsistent, apply_answer-IsConsistent}
use roscope.Connection.Typed.{IsTyped, SomeValid, entries_of, call_plugin-IsTyped}
use roscope.Connection.WellFormed.{IsWellFormed, apply_answer-IsWellFormed}

-- The metadata is the type.
abbrev type_of : Option Text → Option Text
type_of t = t

abbrev plugin : Plugin (Option Text) type_of
plugin executable plugin_name = dict (
    (some (chars "~/scan"), some (some (chars "publisher")))
    ∷ (some (chars "odom"), some (some (chars "sensor")))
    ∷ (none, some none)
    ∷ [])

abbrev node : Node (Option Text) type_of
node = record {
  pkg = chars "lidar";
  identifier = chars "driver";
  node_ns = some (chars "/sensing");
  node_name = some (chars "front");
}

abbrev no_connections : Registry
no_connections = record { connection_registry = []; conflicts = [] }

call_plugin-IsTyped_example :
    All (IsTyped (Option Text) type_of) ((chars "~/scan", some (chars "publisher")) ∷ [])
    × ((c : Text)
        → TextMem c (chars "~/scan" ∷ [])
          ↔ SomeValid
              (Option Text)
              type_of
              c
              (entries_of (Option Text) type_of (plugin (some (chars "driver")) none)))
unfolding call_plugin validate insert contains_text text_eq keys
call_plugin-IsTyped_example =
    call_plugin-IsTyped (Option Text) type_of plugin (some (chars "driver")) none
      ((chars "~/scan", some (chars "publisher")) ∷ []) refl

apply_answer-IsWellFormed_example :
    IsWellFormed
      (apply_answer
        (Option Text)
        type_of
        node
        (some ((chars "~/scan", some (chars "publisher")) ∷ []))
        ((chars "~/scan", chars "points") ∷ [])
        no_connections).1.1
apply_answer-IsWellFormed_example =
    apply_answer-IsWellFormed (Option Text) type_of node
      (some ((chars "~/scan", some (chars "publisher")) ∷ []))
      ((chars "~/scan", chars "points") ∷ []) no_connections refl tt

-- A second node on a name that has a publisher.
abbrev one_publisher : Registry
one_publisher = record {
  connection_registry =
      (
        chars "/points",
        record { pkg = chars "lidar"; exe = chars "driver"; conn_type = chars "publisher" } ∷ [],
      )
      ∷ [];
  conflicts = [];
}

apply_answer-IsConsistent_example :
    IsConsistent
      (apply_answer
        (Option Text)
        type_of
        node
        (some ((chars "/points", some (chars "subscription")) ∷ []))
        []
        one_publisher).1.1
unfolding apply_answer extend_remaps to_dict register_all register_connection is_mixed
    expand_connection_name insert contains_text text_eq lookup
apply_answer-IsConsistent_example =
    apply_answer-IsConsistent (Option Text) type_of node
      (some ((chars "/points", some (chars "subscription")) ∷ [])) [] one_publisher refl
      ((topic, (refl, tt)), tt)
