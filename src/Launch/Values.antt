-- ===== src/Launch/Values.antt =====
-- The values of substitutions: roscope/entities/substitutions/boolean.py, anon_name.py and env.py,
-- after the actions that set and unset the environment and declare arguments.
use roscope.Base.{
  Unicode, is_space, strip, ℕ, contains_text, Text, Bool, true, false, not, ◌&&◌, ◌||◌, none, some,
  Result, return, raise, lookup, insert, Option-cases, ◌++◌, ◌∷◌, [], text_eq, text_eq_refl,
  lookup-insert, lookup-remove,
}
use mathlib.Core.Path.{◌≡◌, refl}
use mathlib.Core.Logic.{◌⊎◌, inl, inr}
use mathlib.Core.List.{append-nil}
use roscope.Launch.Context.{text, Context}
use roscope.Launch.Substitution.{
  Substitution, Substitutions, env, anon, negation, conjunction, disjunction, done, next, Platform,
  coerce_bool, bool_text,
}
use roscope.Launch.Perform.{
  anon_key, coerced, perform, perform_all, read_anon, attempt, find_variable, read_environment,
}
use roscope.Launch.Action.{
  set_environment_variable, unset_environment_variable, execute, declare_argument,
  track_arg_default,
}
use roscope.Launch.Shared.{words}

abbrev alone : Substitution → Substitutions
alone s = next s done

coerce_bool-bool_text : (u : Unicode) (b : Bool) → coerce_bool u (bool_text b ++ []) ≡ some b
unfolding coerce_bool strip is_space contains_text text_eq
coerce_bool-bool_text u true = refl
coerce_bool-bool_text u false = refl

Result-cases :
    {E A : Type 0} (r : Result E A) → ((a : A) × (r ≡ return a)) ⊎ ((e : E) × (r ≡ raise e))
Result-cases (return a) = inl (a, refl)
Result-cases (raise e) = inr (e, refl)

de_morgan : (a b : Bool) → not (a && b) ≡ not a || not b
de_morgan true b = refl
de_morgan false b = refl

module _ (p : Platform) where
  -- The negation of a conjunction is the disjunction of the negations: with the same text, or the
  -- same exception where an operand is no boolean, and with the same effect on the context.
  pub perform-de_morgan :
      (left right : Substitutions) (ctx : Context)
      → perform p (negation (alone (conjunction left right))) ctx
        ≡ perform p (disjunction (alone (negation left)) (alone (negation right))) ctx
  unfolding perform coerced
  perform-de_morgan left right ctx = elim (Result-cases (perform_all p left ctx).0) [
    | inr r ↦ rw r.1 refl
    | inl r ↦ rw r.1 (elim (Option-cases (coerce_bool p.unicode r.0)) [
      | inl invalid ↦ rw invalid refl
      | inr l ↦ rw l.1 (
          rw (coerce_bool-bool_text p.unicode (not l.0))
            (elim (Result-cases (perform_all p right (perform_all p left ctx).1).0) [
              | inr r' ↦ rw r'.1 refl
              | inl r' ↦ rw r'.1 (elim (Option-cases (coerce_bool p.unicode r'.0)) [
                | inl invalid ↦ rw invalid refl
                | inr l' ↦ rw l'.1 (
                    rw (coerce_bool-bool_text p.unicode (not l'.0)) (
                      rw (coerce_bool-bool_text p.unicode (l.0 && l'.0))
                        (rw (de_morgan l.0 l'.0) refl)))
              ])
            ]))
    ])
  ]

  -- `$(anon name)` for a plain name gives the same text when it is performed again, and leaves the
  -- context as the first time left it, also where MD5 then gives another digest: the text comes from
  -- the context, which has the first one.
  pub perform-anon_stable :
      (other : Text → Text) (name : Text) (ctx : Context)
      → let once = perform p (anon (words name)) ctx in
        perform (record p { md5_prefix = other }) (anon (words name)) once.1 ≡ once
  unfolding perform read_anon attempt
  perform-anon_stable other name ctx =
      elim (Option-cases (lookup (anon_key p (name ++ [])) ctx.configurations)) [
        | inl unset ↦ rw unset (
            rw (lookup-insert _ _ _ ctx.configurations)
              (rw (text_eq_refl (anon_key p (name ++ []))) refl))
        | inr r ↦ rw r.1 (rw r.1 refl)
      ]

  -- After `set_env` of a plain name to a plain value, `$(env name)` is the value, also where the
  -- process has another one.
  set_environment-env :
      (name value : Text) (ctx : Context)
      → (perform p
          (env (words name))
          (execute p (set_environment_variable (words name) (words value)) ctx).1).0
        ≡ return value
  unfolding perform execute find_variable read_environment attempt
  set_environment-env name value ctx = rw (append-nil name) (
      rw (append-nil value)
        (rw (lookup-insert name name value ctx.environment) (rw (text_eq_refl name) refl)))

  -- After `unset_env` of a plain name, `$(env name)` is the value that the process has for it, if
  -- there is one: the substitution looks there when the context has no value.
  pub unset_environment-env :
      (name : Text) (ctx : Context) (value : Text)
      → lookup name p.os_environ ≡ some value
      → (perform p (env (words name)) (execute p (unset_environment_variable (words name)) ctx).1).0
        ≡ return value
  unfolding perform execute find_variable read_environment attempt
  unset_environment-env name ctx value set = rw (append-nil name) (
      rw (lookup-remove name name ctx.environment)
        (rw (text_eq_refl name) (rw (append-nil name) (rw set refl))))

  -- Two declarations of an argument with plain defaults: after the second, the configuration has
  -- the value from before the first if there was one, and otherwise the first default; and the
  -- second changes no configuration.
  pub declare_argument-first_wins :
      (c : ℕ) (name first second : Text) (ctx : Context)
      → let once = (declare_argument p (c ∷ name) (some (words first)) none ctx).1 in
        let twice = (declare_argument p (c ∷ name) (some (words second)) none once).1 in
        (twice.configurations ≡ once.configurations)
        × (lookup (c ∷ name) twice.configurations
            ≡ some (elim (lookup (c ∷ name) ctx.configurations) [ none ↦ text first | some v ↦ v ]))
  unfolding declare_argument track_arg_default perform attempt
  declare_argument-first_wins c name first second ctx =
      elim (Option-cases (lookup (c ∷ name) ctx.configurations)) [
        | inr r ↦ rw r.1 (rw r.1 (refl, r.1))
        | inl unset ↦
            rw unset (rw (stored (first ++ [])) (refl, rw (append-nil first) (stored first)))
      ]
    where
      stored :
          (v : Text)
          → lookup (c ∷ name) (insert (c ∷ name) (text v) ctx.configurations) ≡ some (text v)
      stored v =
          rw (lookup-insert (c ∷ name) (c ∷ name) (text v) ctx.configurations)
            (rw (text_eq_refl (c ∷ name)) refl)
