-- ===== src/Launch/Frame.antt =====
-- What `perform` of roscope/entities/substitutions may change of the context.
use roscope.Base.{Text, Dict, Option, none, some, return, lookup, Option-cases, ◌++◌}
use mathlib.Core.Path.{◌≡◌, refl}
use mathlib.Core.Logic.{inl, inr}
use roscope.Base.Stateful.{Keeps, >>=-Keeps, if-Keeps, pure-Keeps}
use roscope.Launch.Context.{Value, Context}
use roscope.Launch.Substitution.{
  Substitution, Substitutions, literal, var, env, env_or, anon, dirname, negation, conjunction,
  disjunction, equals, not_equals, if_then, if_else, done, next, Platform, Error, Exec, coerce_bool,
}
use roscope.Launch.Perform.{
  anon_key, read_variable, read_environment, find_variable, read_anon, coerced, attempt, perform,
  perform_all, perform_safely,
}

module _ {X : Type 0} (view : Context → X) where
  module _ (p : Platform)
      (blind : (c : Dict Value) (ctx : Context)
        → view (record ctx { configurations = c }) ≡ view ctx) where
    read_anon-Keeps : (name : Text) → Keeps view (read_anon p name)
    unfolding Keeps read_anon
    read_anon-Keeps name ctx = elim (Option-cases (lookup (anon_key p name) ctx.configurations)) [
      | inl unset ↦ rw unset (blind _ ctx)
      | inr r ↦ rw r.1 refl
    ]

    coerced-Keeps : (t : Text) → Keeps view (coerced p t)
    unfolding Keeps coerced
    coerced-Keeps t ctx = elim (Option-cases (coerce_bool p.unicode t)) [
      | inl invalid ↦ rw invalid refl
      | inr r ↦ rw r.1 refl
    ]

    or_else-Keeps :
        (m : Exec Text) (found : Context → Option Text)
        → Keeps view m
        → Keeps view {E = Error} {A = Text}
            (λ ctx. elim (found ctx) [ none ↦ m ctx | some value ↦ (return value, ctx) ])
    unfolding Keeps
    or_else-Keeps m found keeps ctx = elim (Option-cases (found ctx)) [
      | inl unset ↦ rw unset (keeps ctx)
      | inr r ↦ rw r.1 refl
    ]

    dirname-Keeps : Keeps view (perform p dirname)
    unfolding Keeps perform
    dirname-Keeps ctx = refl

    read_variable-Keeps : (x : Text) → Keeps view (read_variable p x)
    unfolding Keeps read_variable
    read_variable-Keeps x ctx = refl

    read_environment-Keeps : (x : Text) → Keeps view (read_environment p x)
    unfolding Keeps read_environment
    read_environment-Keeps x ctx = refl

    attempt-Keeps : (s : Substitution) (m : Exec Text) → Keeps view m → Keeps view (attempt p s m)
    unfolding Keeps attempt
    attempt-Keeps s m keeps = keeps

    mutual
      unfolding perform

      pub perform-Keeps : (s : Substitution) → Keeps view (perform p s)
      perform-Keeps (literal t) = pure-Keeps view _ _
      perform-Keeps (var name) = >>=-Keeps view _ _ (perform_all-Keeps name) read_variable-Keeps
      perform-Keeps (env name) = >>=-Keeps view _ _ (perform_all-Keeps name) read_environment-Keeps
      perform-Keeps (env_or name default) = >>=-Keeps view _ _ (perform_all-Keeps name) (λ x.
          or_else-Keeps (perform_all p default) (find_variable p x) (perform_all-Keeps default))
      perform-Keeps (anon name) = >>=-Keeps view _ _ (perform_safely-Keeps name) read_anon-Keeps
      perform-Keeps dirname = dirname-Keeps
      perform-Keeps (negation value) =
          >>=-Keeps view _ _ (perform_all-Keeps value)
            (λ x. >>=-Keeps view _ _ (coerced-Keeps x) (λ b. pure-Keeps view _ _))
      perform-Keeps (conjunction left right) = >>=-Keeps view _ _ (perform_all-Keeps left) (λ x.
          >>=-Keeps view _ _ (coerced-Keeps x) (λ a.
            >>=-Keeps view _ _ (perform_all-Keeps right)
              (λ y. >>=-Keeps view _ _ (coerced-Keeps y) (λ b. pure-Keeps view _ _))))
      perform-Keeps (disjunction left right) = >>=-Keeps view _ _ (perform_all-Keeps left) (λ x.
          >>=-Keeps view _ _ (coerced-Keeps x) (λ a.
            >>=-Keeps view _ _ (perform_all-Keeps right)
              (λ y. >>=-Keeps view _ _ (coerced-Keeps y) (λ b. pure-Keeps view _ _))))
      perform-Keeps (equals left right) =
          >>=-Keeps view _ _ (perform_all-Keeps left)
            (λ x. >>=-Keeps view _ _ (perform_all-Keeps right) (λ y. pure-Keeps view _ _))
      perform-Keeps (not_equals left right) =
          >>=-Keeps view _ _ (perform_all-Keeps left)
            (λ x. >>=-Keeps view _ _ (perform_all-Keeps right) (λ y. pure-Keeps view _ _))
      perform-Keeps (if_then condition if_value) =
          >>=-Keeps view _ _ (perform_all-Keeps condition) (λ x.
            >>=-Keeps view _ _ (coerced-Keeps x)
              (λ b. if-Keeps view b _ _ (perform_all-Keeps if_value) (pure-Keeps view _ _)))
      perform-Keeps (if_else condition if_value else_value) =
          >>=-Keeps view _ _ (perform_all-Keeps condition) (λ x.
            >>=-Keeps view _ _ (coerced-Keeps x) (λ b.
              if-Keeps view b _ _ (perform_all-Keeps if_value) (perform_all-Keeps else_value)))

      pub perform_all-Keeps : (s : Substitutions) → Keeps view (perform_all p s)
      perform_all-Keeps done = pure-Keeps view _ _
      perform_all-Keeps (next s rest) =
          >>=-Keeps view _ _ (perform-Keeps s)
            (λ x. >>=-Keeps view _ _ (perform_all-Keeps rest) (λ y. pure-Keeps view _ _))

      pub perform_safely-Keeps : (s : Substitutions) → Keeps view (perform_safely p s)
      perform_safely-Keeps done = pure-Keeps view _ _
      perform_safely-Keeps (next s rest) =
          >>=-Keeps view _ _ (attempt-Keeps s (perform p s) (perform-Keeps s))
            (λ x. >>=-Keeps view _ _ (perform_safely-Keeps rest) (λ y. pure-Keeps view _ (x ++ y)))
