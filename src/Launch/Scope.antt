-- ===== src/Launch/Scope.antt =====
-- The scopes of roscope/entities/actions/group_action.py: what the actions of a group may change,
-- and what its end restores.
use roscope.Base.{
  Text, Dict, true, false, Option, none, some, lookup, Option-cases, Bool-cases, List, ◌||◌, ◌∷◌,
  [],
}
use mathlib.Core.Path.{◌≡◌, refl, ap}
use mathlib.Core.Logic.{inl, inr}
use roscope.Launch.Context.{
  Value, text, items, Context, push_configurations, pop_configurations, push_environment,
  pop_environment,
}
use roscope.Launch.Substitution.{Substitutions, Platform, Exec}
use roscope.Launch.Perform.{perform_safely, cell_at}
use roscope.Launch.Action.{
  Condition, Action, action, Body, declare_launch_argument, set_launch_configuration,
  set_environment_variable, unset_environment_variable, push_ros_namespace, set_remap,
  set_parameter, group_action, Actions, finished, and_then, modify, track_arg_default, append_entry,
  join_namespace, declare_argument, set_launch_value, add_parameter, evaluate, may_run, leave_scope,
  visit, execute, execute_all, is_empty, store_namespace, resolved_default, declare, assign,
  namespace_key, set_variable, unset_variable,
}
use roscope.Namespace.{is_absolute}
use roscope.Base.Stateful.{Keeps, >>=-Keeps, pure-Keeps}
use roscope.Launch.Frame.{perform_all-Keeps, perform_safely-Keeps}

abbrev pub stacks : Context → List (Dict Value) × List (Dict Text)
stacks ctx = (ctx.configurations_stack, ctx.environment_stack)

-- What a group restores. A list in the configurations is the address of the list object.
abbrev pub scope : Context → (Dict Value × Dict Text) × (List (Dict Value) × List (Dict Text))
scope ctx = ((ctx.configurations, ctx.environment), stacks ctx)

abbrev KeepsStacks : {A : Type 0} → Exec A → Type 0
KeepsStacks m = Keeps stacks m

modify-Keeps :
    (f : Context → Context)
    → ((ctx : Context) → stacks (f ctx) ≡ stacks ctx)
    → KeepsStacks (modify f)
unfolding Keeps
modify-Keeps f same = same

store_namespace-Keeps : (ns : Option Text) → KeepsStacks (modify (store_namespace ns))
unfolding Keeps
store_namespace-Keeps none ctx = refl
store_namespace-Keeps (some ns) ctx = refl

pops-restore :
    (saved inner : Context)
    → inner.configurations_stack ≡ saved.configurations ∷ saved.configurations_stack
    → inner.environment_stack ≡ saved.environment ∷ saved.environment_stack
    → scope (pop_configurations (pop_environment inner)) ≡ scope saved
unfolding pop_configurations pop_environment
pops-restore saved inner e f = rw f (rw e refl)

-- At the end of a group, whose children left the stacks as they found them, the configurations and
-- the environment are those of its start.
leave_scope-restores :
    (m : Exec (Unit {0}))
    → KeepsStacks m
    → (ctx : Context)
    → scope (leave_scope (m (push_environment (push_configurations ctx)))).1 ≡ scope ctx
unfolding leave_scope push_configurations push_environment pop_configurations pop_environment Keeps
leave_scope-restores m keeps ctx =
    let same = keeps (push_environment (push_configurations ctx)) in
    pops-restore ctx _ (ap (λ s. s.0) same) (ap (λ s. s.1) same)

append_entry-Keeps : (key : Text) (e : Text × Text) → KeepsStacks (append_entry key e)
unfolding append_entry Keeps
append_entry-Keeps key e ctx = elim (Option-cases (lookup key ctx.configurations)) [
  | inl unset ↦ rw unset refl
  | inr (text t, set) ↦ rw set refl
  | inr (items a, set) ↦ rw set refl
]

join_namespace-Keeps : (ns : Text) → KeepsStacks (join_namespace ns)
unfolding join_namespace Keeps
join_namespace-Keeps [] ctx = refl
join_namespace-Keeps (c ∷ ns) ctx = elim (Option-cases (lookup namespace_key ctx.configurations)) [
  | inl unset ↦ rw unset (store_namespace-Keeps _ ctx)
  | inr (text t, set) ↦ rw set (store_namespace-Keeps _ ctx)
  | inr (items a, set) ↦
      rw set (elim (Bool-cases (is_absolute (c ∷ ns) || is_empty (cell_at ctx.cells a))) [
        | inl taken ↦ rw taken (store_namespace-Keeps _ ctx)
        | inr raised ↦ rw raised refl
      ])
]

module _ (p : Platform) where
  safely-Keeps : (s : Substitutions) → KeepsStacks (perform_safely p s)
  safely-Keeps = perform_safely-Keeps stacks p (λ c ctx. refl)

  resolved_default-Keeps : (s : Option Substitutions) → KeepsStacks (resolved_default p s)
  resolved_default-Keeps none = pure-Keeps stacks _ _
  resolved_default-Keeps (some s) = safely-Keeps s

  declare-Keeps :
      (name : Text) (default : Option Substitutions) (v : Text)
      → KeepsStacks (λ ctx. modify (declare p name default v (lookup name ctx.configurations)) ctx)
  unfolding Keeps track_arg_default
  declare-Keeps name default v ctx = elim (Option-cases (lookup name ctx.configurations)) [
    | inl unset ↦ rw unset (of_default default)
    | inr r ↦ rw r.1 refl
  ]
    where
      of_default : (d : Option Substitutions) → stacks (declare p name d v none ctx) ≡ stacks ctx
      of_default none = refl
      of_default (some d) = refl

  declare_argument-Keeps :
      (name : Text) (default fixed : Option Substitutions)
      → KeepsStacks (declare_argument p name default fixed)
  unfolding declare_argument
  declare_argument-Keeps [] default fixed = pure-Keeps stacks _ _
  declare_argument-Keeps (c ∷ name) default none =
      >>=-Keeps stacks _ _ (resolved_default-Keeps default) (λ v. declare-Keeps _ _ _)
  declare_argument-Keeps (c ∷ name) default (some value) =
      >>=-Keeps stacks _ _ (safely-Keeps value)
        (λ v. modify-Keeps (assign p (c ∷ name) v) (λ ctx. refl))

  set_launch_value-Keeps :
      (name : Text) (value : Substitutions) → KeepsStacks (set_launch_value p name value)
  unfolding set_launch_value
  set_launch_value-Keeps [] value = pure-Keeps stacks _ _
  set_launch_value-Keeps (c ∷ name) value =
      >>=-Keeps stacks _ _ (safely-Keeps value) (λ v. modify-Keeps _ (λ ctx. refl))

  add_parameter-Keeps :
      (name : Text) (value : Substitutions) → KeepsStacks (add_parameter p name value)
  unfolding add_parameter
  add_parameter-Keeps [] value = pure-Keeps stacks _ _
  add_parameter-Keeps (c ∷ name) value =
      >>=-Keeps stacks _ _ (safely-Keeps value) (λ v. append_entry-Keeps _ _)

  may_run-Keeps : (c : Option Condition) (ctx : Context) → stacks (may_run p c ctx).1 ≡ stacks ctx
  unfolding may_run evaluate Keeps
  may_run-Keeps none ctx = refl
  may_run-Keeps (some c) ctx = perform_all-Keeps stacks p (λ c ctx. refl) _ ctx

  visit-Keeps_step :
      (c : Option Condition) (b : Body)
      → KeepsStacks (execute p b)
      → KeepsStacks (visit p (action c b))
  unfolding visit Keeps
  visit-Keeps_step c b keeps ctx = elim (Bool-cases (may_run p c ctx).0) [
    | inl run ↦ rw run (rw (keeps (may_run p c ctx).1) (may_run-Keeps c ctx))
    | inr skip ↦ rw skip (may_run-Keeps c ctx)
  ]

  group-Keeps :
      (children : Actions)
      → KeepsStacks (execute_all p children)
      → KeepsStacks (execute p (group_action true children))
  unfolding execute leave_scope Keeps
  group-Keeps children keeps ctx =
      ap (λ s. s.1) (leave_scope-restores (execute_all p children) keeps ctx)

  mutual
    unfolding execute

    visit-Keeps : (a : Action) → KeepsStacks (visit p a)
    visit-Keeps (action condition body) = visit-Keeps_step condition body (execute-Keeps body)

    execute-Keeps : (b : Body) → KeepsStacks (execute p b)
    execute-Keeps (declare_launch_argument name default fixed) =
        declare_argument-Keeps name default fixed
    execute-Keeps (set_launch_configuration name value) = set_launch_value-Keeps name value
    execute-Keeps (set_environment_variable name value) =
        >>=-Keeps stacks _ _ (safely-Keeps name) (λ n.
          >>=-Keeps stacks _ _ (safely-Keeps value)
            (λ v. modify-Keeps (set_variable n v) (λ ctx. refl)))
    execute-Keeps (unset_environment_variable name) =
        >>=-Keeps stacks _ _ (safely-Keeps name)
          (λ n. modify-Keeps (unset_variable n) (λ ctx. refl))
    execute-Keeps (push_ros_namespace namespace) =
        >>=-Keeps stacks _ _ (safely-Keeps namespace) join_namespace-Keeps
    execute-Keeps (set_remap src dst) =
        >>=-Keeps stacks _ _ (safely-Keeps src)
          (λ n. >>=-Keeps stacks _ _ (safely-Keeps dst) (λ v. append_entry-Keeps _ _))
    execute-Keeps (set_parameter name value) =
        >>=-Keeps stacks _ _ (safely-Keeps name) (λ n. add_parameter-Keeps n value)
    execute-Keeps (group_action true children) = group-Keeps children (execute_all-Keeps children)
    execute-Keeps (group_action false children) = execute_all-Keeps children

    execute_all-Keeps : (children : Actions) → KeepsStacks (execute_all p children)
    execute_all-Keeps finished = pure-Keeps stacks _ _
    execute_all-Keeps (and_then a rest) =
        >>=-Keeps stacks _ _ (visit-Keeps a) (λ u. execute_all-Keeps rest)

  -- An action changes neither stack, whatever it does and whatever it raises: the groups inside it
  -- push and pop in pairs.
  pub visit-balanced : (a : Action) (ctx : Context) → stacks (visit p a ctx).1 ≡ stacks ctx
  unfolding Keeps
  visit-balanced a = visit-Keeps a

  -- After a scoped group the dictionary of the launch configurations, the environment and both stacks
  -- are those from before it, whatever its children do and also where one of them raises. A
  -- configuration that is a list is then the same list object, to which the children may have appended.
  pub group_action_restores :
      (children : Actions) (ctx : Context)
      → scope (execute p (group_action true children) ctx).1 ≡ scope ctx
  unfolding execute leave_scope
  group_action_restores children =
      leave_scope-restores (execute_all p children) (execute_all-Keeps children)
