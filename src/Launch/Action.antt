-- ===== src/Launch/Action.antt =====
-- The actions that write the context, their conditions, and the groups that scope them:
-- roscope/entities/action.py, parsing.py and actions/*.py.
use roscope.Base.{
  ℕ, zero, suc, Text, chars, Dict, Bool, true, false, not, ◌||◌, List, [], ◌∷◌, ◌++◌, Option, none,
  some, Result, return, raise, lookup, insert, remove, contains_text, if◌then◌else◌, length,
}
use roscope.Namespace.{is_absolute, ros2_namespace_join}
use roscope.Base.Stateful.{◌>>=◌, pure}
use roscope.Launch.Context.{
  Value, text, items, Entries, Context, push_configurations, pop_configurations, push_environment,
  pop_environment, current_source_key,
}
use roscope.Launch.Substitution.{
  Substitutions, Platform, Error, attribute_error, type_error, Exec, coerce_bool,
}
use roscope.Launch.Perform.{perform_all, perform_safely, cell_at}

-- `_ParsedCondition`: its kind and its tokens.
pub data Condition : Type 0 where
  if_condition unless_condition : Substitutions → Condition

mutual
  pub data Action : Type 0 where
    action : Option Condition → Body → Action

  -- The class of an action, with its fields.
  pub data Body : Type 0 where
    -- name, default value, fixed value
    declare_launch_argument : Text → Option Substitutions → Option Substitutions → Body
    set_launch_configuration : Text → Substitutions → Body
    set_environment_variable : Substitutions → Substitutions → Body
    unset_environment_variable : Substitutions → Body
    push_ros_namespace : Substitutions → Body
    set_remap : Substitutions → Substitutions → Body
    set_parameter : Substitutions → Substitutions → Body
    -- whether the group is scoped, and its children
    group_action : Bool → Actions → Body

  pub data Actions : Type 0 where
    finished : Actions
    and_then : Action → Actions → Actions

abbrev pub set_configuration : Text → Value → Context → Context
set_configuration name value ctx = record ctx {
  configurations = insert name value ctx.configurations;
}

-- `setdefault(name, record)`: the first record of a name stays.
abbrev pub set_default {ℓ} : {V : Type ℓ} → Text → V → Dict V → Dict V
set_default name value d = elim (lookup name d) [ none ↦ insert name value d | some old ↦ d ]

abbrev file_record : Option (Dict (Text × Value)) → Dict (Text × Value)
file_record none = []
file_record (some d) = d

abbrev in_file :
    Text → Text → Text × Value → Dict (Dict (Text × Value)) → Dict (Dict (Text × Value))
in_file [] name entry files = files
in_file (c ∷ key) name entry files =
    insert (c ∷ key) (set_default name entry (file_record (lookup (c ∷ key) files))) files

abbrev add_name : Text → List Text → List Text
add_name name names = if contains_text names name then names else name ∷ names

-- `_track_arg_default`
unfoldable pub track_arg_default : Text → Text → Value → Context → Context
unfolding current_source_key
track_arg_default name declared_default effective ctx = record ctx {
  declared_arg_names = add_name name ctx.declared_arg_names;
  declared_by_file =
      in_file (current_source_key ctx) name (declared_default, effective) ctx.declared_by_file;
}

abbrev pub modify : (Context → Context) → Exec (Unit {0})
modify f ctx = (return tt, f ctx)

-- Writes the entries of a list object.
abbrev pub set_cell : List Entries → ℕ → Entries → List Entries
set_cell [] a entries = []
set_cell (c ∷ cells) zero entries = entries ∷ cells
set_cell (c ∷ cells) (suc a) entries = c ∷ set_cell cells a entries

abbrev pub remaps_key : Text
remaps_key = chars "ros_remaps"

abbrev pub params_key : Text
params_key = chars "global_params"

abbrev pub namespace_key : Text
namespace_key = chars "ros_namespace"

-- `configurations[key].append(entry)`: in place where the key holds a list, on a new list where
-- there is no key. A text has no `append`.
abbrev append_to : Text → Text × Text → Option Value → Exec (Unit {0})
append_to key entry none ctx = (
  return tt,
  record ctx {
    configurations = insert key (items (length ctx.cells)) ctx.configurations;
    cells = ctx.cells ++ (entry ∷ []) ∷ [];
  },
)
append_to key entry (some (items a)) ctx =
    (return tt, record ctx { cells = set_cell ctx.cells a (cell_at ctx.cells a ++ entry ∷ []) })
append_to key entry (some (text t)) ctx = (raise attribute_error, ctx)

unfoldable pub append_entry : Text → Text × Text → Exec (Unit {0})
append_entry key entry ctx = append_to key entry (lookup key ctx.configurations) ctx

abbrev pub store_namespace : Option Text → Context → Context
store_namespace none ctx = ctx
store_namespace (some joined) ctx = set_configuration namespace_key (text joined) ctx

abbrev pub is_empty : Entries → Bool
is_empty [] = true
is_empty (e ∷ entries) = false

-- Under a list, `prefix_namespace` takes an absolute namespace, and `+` raises on any other.
abbrev join_to : Text → Option Value → Exec (Unit {0})
join_to ns none = modify (store_namespace (ros2_namespace_join none (some ns)))
join_to ns (some (text prev)) = modify (store_namespace (ros2_namespace_join (some prev) (some ns)))
join_to ns (some (items a)) = λ ctx.
    if is_absolute ns || is_empty (cell_at ctx.cells a)
    then modify (store_namespace (ros2_namespace_join none (some ns))) ctx
    else (raise type_error, ctx)

unfoldable pub join_namespace : Text → Exec (Unit {0})
join_namespace [] ctx = (return tt, ctx)
join_namespace (c ∷ ns) ctx = join_to (c ∷ ns) (lookup namespace_key ctx.configurations) ctx

abbrev pub set_variable : Text → Text → Context → Context
set_variable name value ctx = record ctx { environment = insert name value ctx.environment }

-- An unset variable is logged.
abbrev pub unset_variable : Text → Context → Context
unset_variable name ctx = record ctx { environment = remove name ctx.environment }

-- The `finally` of a group.
unfoldable pub leave_scope : Result Error (Unit {0}) × Context → Result Error (Unit {0}) × Context
unfolding pop_configurations pop_environment
leave_scope (r, ctx) = (r, pop_configurations (pop_environment ctx))

module _ (p : Platform) where
  abbrev pub resolved_default : Option Substitutions → Exec Text
  resolved_default none = pure []
  resolved_default (some default) = perform_safely p default

  -- The argument after its default is resolved: it is set already, required, or new.
  abbrev pub declare : Text → Option Substitutions → Text → Option Value → Context → Context
  declare name default declared (some value) ctx = track_arg_default name declared value ctx
  declare name none declared none ctx = track_arg_default name [] (text []) ctx
  declare name (some default) declared none ctx =
      track_arg_default name declared (text declared) (set_configuration name (text declared) ctx)

  abbrev pub assign : Text → Text → Context → Context
  assign name value ctx =
      track_arg_default name value (text value) (set_configuration name (text value) ctx)

  -- `DeclareLaunchArgument.execute`
  unfoldable pub declare_argument :
      Text → Option Substitutions → Option Substitutions → Exec (Unit {0})
  unfolding track_arg_default
  declare_argument [] default fixed = pure tt
  declare_argument (c ∷ name) default (some value) = do
    v ← perform_safely p value
    modify (assign (c ∷ name) v)
  declare_argument (c ∷ name) default none = do
    v ← resolved_default default
    λ ctx. modify (declare (c ∷ name) default v (lookup (c ∷ name) ctx.configurations)) ctx

  unfoldable pub set_launch_value : Text → Substitutions → Exec (Unit {0})
  set_launch_value [] value = pure tt
  set_launch_value (c ∷ name) value = do
    v ← perform_safely p value
    modify (set_configuration (c ∷ name) (text v))

  abbrev number_text : Text → Option Text → Text
  number_text value none = value
  number_text value (some number) = number

  unfoldable pub add_parameter : Text → Substitutions → Exec (Unit {0})
  unfolding append_entry
  add_parameter [] value = pure tt
  add_parameter (c ∷ name) value = do
    v ← perform_safely p value
    append_entry params_key (c ∷ name, number_text v (p.str_number v))

  abbrev pub chosen : Condition → Option Bool → Bool
  chosen c none = false
  chosen (if_condition s) (some b) = b
  chosen (unless_condition s) (some b) = not b

  abbrev pub decide : Condition → Result Error Text → Bool
  decide c (raise e) = false
  decide c (return t) = chosen c (coerce_bool p.unicode t)

  abbrev tokens : Condition → Substitutions
  tokens (if_condition s) = s
  tokens (unless_condition s) = s

  -- `_ParsedCondition.evaluate`: no exception leaves it.
  unfoldable pub evaluate : Condition → Context → Bool × Context
  evaluate c ctx = (decide c (perform_all p (tokens c) ctx).0, (perform_all p (tokens c) ctx).1)

  unfoldable pub may_run : Option Condition → Context → Bool × Context
  unfolding evaluate
  may_run none ctx = (true, ctx)
  may_run (some c) ctx = evaluate c ctx

  -- `SetEnvironmentVariable.execute`
  abbrev pub set_environment : Substitutions → Substitutions → Exec (Unit {0})
  set_environment name value = do
    n ← perform_safely p name
    v ← perform_safely p value
    modify (set_variable n v)

  -- `UnsetEnvironmentVariable.execute`
  abbrev pub unset_environment : Substitutions → Exec (Unit {0})
  unset_environment name = do n ← perform_safely p name; modify (unset_variable n)

  -- `PushROSNamespace.execute`
  abbrev pub push_namespace : Substitutions → Exec (Unit {0})
  push_namespace namespace = do ns ← perform_safely p namespace; join_namespace ns

  -- `SetRemap.execute`
  abbrev pub add_remap : Substitutions → Substitutions → Exec (Unit {0})
  add_remap src dst = do
    s ← perform_safely p src
    d ← perform_safely p dst
    append_entry remaps_key (s, d)

  -- `SetParameter.execute`
  abbrev pub set_global_parameter : Substitutions → Substitutions → Exec (Unit {0})
  set_global_parameter name value = do n ← perform_safely p name; add_parameter n value

  -- `GroupAction.execute` around its loop
  abbrev pub in_scope : Bool → Exec (Unit {0}) → Exec (Unit {0})
  in_scope true children =
      λ ctx. leave_scope (children (push_environment (push_configurations ctx)))
  in_scope false children = children

  -- `Action.visit`
  abbrev pub visit_if : Option Condition → Exec (Unit {0}) → Exec (Unit {0})
  visit_if condition body ctx =
      let run = body (may_run condition ctx).1 in
      if (may_run condition ctx).0 then run else (return tt, (may_run condition ctx).1)

  -- `visit` and `execute` of each class, and the loop of `GroupAction.execute`.
  unfoldable mutual
    unfolding declare_argument set_launch_value add_parameter join_namespace append_entry may_run
        leave_scope push_configurations push_environment

    pub visit : Action → Exec (Unit {0})
    visit (action condition body) = visit_if condition (execute body)

    pub execute : Body → Exec (Unit {0})
    execute (declare_launch_argument name default fixed) = declare_argument name default fixed
    execute (set_launch_configuration name value) = set_launch_value name value
    execute (set_environment_variable name value) = set_environment name value
    execute (unset_environment_variable name) = unset_environment name
    execute (push_ros_namespace namespace) = push_namespace namespace
    execute (set_remap src dst) = add_remap src dst
    execute (set_parameter name value) = set_global_parameter name value
    execute (group_action scoped children) = in_scope scoped (execute_all children)

    pub execute_all : Actions → Exec (Unit {0})
    execute_all finished = pure tt
    execute_all (and_then a rest) = do u ← visit a; execute_all rest
