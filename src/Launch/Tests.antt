-- ===== src/Launch/Tests.antt =====
-- Runs of the interpreter, and the theorems about it at concrete inputs.
use roscope.Base.{
  chars, ◌≡◌, refl, arith, true, false, none, some, [], ◌∷◌, ◌++◌, return, lookup, text_eq, strip,
  is_space,
}
use mathlib.Core.Path.{◌≡◌, refl}
use native.Mathlib.Omega.{arith}
use roscope.Launch.Context.{text, items, Context}
use roscope.Launch.Substitution.{
  var, env, anon, negation, conjunction, disjunction, done, next, Platform,
}
use roscope.Launch.Perform.{perform}
use roscope.Launch.Action.{
  if_condition, action, set_launch_configuration, set_environment_variable,
  unset_environment_variable, group_action, Actions, finished, and_then, visit, execute,
  declare_argument, remaps_key,
}
use roscope.Launch.Scope.{stacks, scope, visit-balanced, group_action_restores}
use roscope.Launch.Shared.{global_remaps, words, remapping, set_remap_leaks, set_remap_confined}
use roscope.Launch.Action.{evaluate, unless_condition}
use roscope.Launch.Conditions.{if_evaluate, unless_evaluate, substitution, if_evaluate-agrees}
use roscope.Launch.Branches.{IsBoolean}
use roscope.Launch.Perform.{perform_all}
use roscope.Base.{◌↔◌}
use roscope.Launch.Values.{
  perform-de_morgan, perform-anon_stable, unset_environment-env, declare_argument-first_wins,
}

abbrev platform : Platform
platform = record {
  unicode = record { wide_space = λ c. false; wide_alnum = λ c. false };
  os_environ = (chars "HOME", chars "/root") ∷ [];
  md5_prefix = λ name. chars "0badcafe";
  float_close = λ a b. none;
  str_entries = λ entries. chars "[]";
  str_number = λ t. none;
}

abbrev fresh : Context
fresh = record {
  configurations = (chars "robot", text (chars "r2")) ∷ [];
  configurations_stack = [];
  environment = (chars "HOME", chars "/home/r2") ∷ [];
  environment_stack = [];
  launch_file_dir = some (chars "/opt/launch");
  cells = [];
  declared_arg_names = [];
  declared_by_file = [];
  include_chain = [];
  root_source_key = chars "main.launch.xml";
}

-- The same with one remapping.
abbrev remapped : Context
remapped = record fresh {
  configurations = (remaps_key, items 0) ∷ fresh.configurations;
  cells = ((chars "in", chars "left") ∷ []) ∷ [];
}

-- A `let`, a `set_env`, an inner group under a condition that is invalid, and a remapping.
abbrev children : Actions
children = and_then (action none (set_launch_configuration (chars "robot") (words (chars "c3")))) (
    and_then (action none (set_environment_variable (words (chars "HOME")) (words (chars "/")))) (
      and_then
        (action (some (if_condition (next (var (words (chars "robot"))) done)))
          (group_action true finished))
        (remapping (chars "out") (chars "right"))))

visit-balanced_example :
    stacks (visit platform (action none (group_action true children)) fresh).1 ≡ stacks fresh
visit-balanced_example = visit-balanced platform (action none (group_action true children)) fresh

group_action_restores_example :
    scope (execute platform (group_action true children) remapped).1 ≡ scope remapped
group_action_restores_example = group_action_restores platform children remapped

set_remap_leaks_example :
    global_remaps
      (execute platform (group_action true (remapping (chars "out") (chars "right"))) remapped).1
    ≡ global_remaps remapped ++ (chars "out", chars "right") ∷ []
unfolding lookup text_eq
set_remap_leaks_example =
    set_remap_leaks platform (chars "out") (chars "right") remapped 0 refl (omega arith)

set_remap_confined_example :
    global_remaps (execute platform (group_action true children) fresh).1 ≡ []
unfolding lookup text_eq
set_remap_confined_example = set_remap_confined platform children fresh refl

perform-de_morgan_example :
    perform platform
      (negation (next (conjunction (words (chars "true")) (words (chars "maybe"))) done))
      fresh
    ≡ perform platform
        (disjunction
          (next (negation (words (chars "true"))) done)
          (next (negation (words (chars "maybe"))) done))
        fresh
perform-de_morgan_example =
    perform-de_morgan platform (words (chars "true")) (words (chars "maybe")) fresh

perform-anon_stable_example :
    let once = perform platform (anon (words (chars "node"))) fresh in
    perform
      (record platform { md5_prefix = λ name. chars "1badcafe" })
      (anon (words (chars "node")))
      once.1
    ≡ once
perform-anon_stable_example =
    perform-anon_stable platform (λ name. chars "1badcafe") (chars "node") fresh

unset_environment-env_example :
    (perform platform
      (env (words (chars "HOME")))
      (execute platform (unset_environment_variable (words (chars "HOME"))) fresh).1).0
    ≡ return (chars "/root")
unfolding lookup text_eq
unset_environment-env_example =
    unset_environment-env platform (chars "HOME") fresh (chars "/root") refl

declare_argument-first_wins_example :
    let once = (declare_argument platform (chars "mode") (some (words (chars "a"))) none fresh).1 in
    let twice = (declare_argument platform (chars "mode") (some (words (chars "b"))) none once).1 in
    (twice.configurations ≡ once.configurations)
    × (lookup (chars "mode") twice.configurations
        ≡ some (elim (lookup (chars "mode") fresh.configurations) [
          | none ↦ text (chars "a")
          | some v ↦ v
        ]))
declare_argument-first_wins_example =
    declare_argument-first_wins platform b'm' (chars "ode") (chars "a") (chars "b") fresh

if_evaluate-agrees_example :
    (if_evaluate platform (substitution (var (words (chars "robot")))) fresh
      ≡ evaluate platform (if_condition (next (var (words (chars "robot"))) done)) fresh)
    × (((unless_evaluate platform (substitution (var (words (chars "robot")))) fresh).0
          ≡ (evaluate platform
              (unless_condition (next (var (words (chars "robot"))) done))
              fresh).0)
        ↔ IsBoolean platform (perform platform (var (words (chars "robot"))) fresh).0)
unfolding perform perform_all lookup text_eq strip is_space
if_evaluate-agrees_example = if_evaluate-agrees platform (var (words (chars "robot"))) fresh refl
