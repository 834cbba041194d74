-- ===== src/Launch/Perform.antt =====
-- `perform` of the substitutions, and the ways in which the actions call it.
use roscope.Base.{
  to_lower, ℕ, zero, suc, Text, chars, Bool, not, ◌&&◌, ◌||◌, List, [], ◌∷◌, ◌++◌, Option, none,
  some, Result, return, raise, lookup, insert, text_eq, if◌then◌else◌,
}
use roscope.Base.Stateful.{◌>>=◌, pure}
use roscope.Launch.Context.{Value, text, items, Entries, Context}
use roscope.Launch.Substitution.{
  Substitution, Substitutions, literal, var, env, env_or, anon, dirname, negation, conjunction,
  disjunction, equals, not_equals, if_then, if_else, done, next, Platform, Error, invalid_boolean,
  Exec, bool_of, coerce_bool, bool_text, parenthesised, shown,
}

abbrev pub cell_at : List Entries → ℕ → Entries
cell_at [] a = []
cell_at (c ∷ cells) zero = c
cell_at (c ∷ cells) (suc a) = cell_at cells a

module _ (p : Platform) where
  -- `str(value)`
  abbrev pub value_text : Context → Value → Text
  value_text ctx (text t) = t
  value_text ctx (items a) = p.str_entries (cell_at ctx.cells a)

  abbrev pub or_undefined : Text → Context → Option Value → Text
  or_undefined name ctx none = parenthesised (chars "var") name
  or_undefined name ctx (some value) = value_text ctx value

  -- `LaunchConfiguration.perform` behind its name. An undefined variable is logged.
  unfoldable pub read_variable : Text → Exec Text
  read_variable name ctx = (return (or_undefined name ctx (lookup name ctx.configurations)), ctx)

  -- The value of the context, or that of the process.
  unfoldable pub find_variable : Text → Context → Option Text
  find_variable name ctx = elim (lookup name ctx.environment) [
    | none ↦ lookup name p.os_environ
    | some value ↦ some value
  ]

  -- An unset variable without a default is logged.
  unfoldable pub read_environment : Text → Exec Text
  unfolding find_variable
  read_environment name ctx =
      (return (elim (find_variable name ctx) [ none ↦ [] | some value ↦ value ]), ctx)

  abbrev pub anon_key : Text → Text
  anon_key name = chars "anon" ++ name

  abbrev anon_name : Text → Text
  anon_name name = name ++ (b'_' ∷ p.md5_prefix name)

  abbrev anon_stored : Text → Option Value → Exec Text
  anon_stored name (some value) ctx = (return (value_text ctx value), ctx)
  anon_stored name none ctx = (
    return (anon_name name),
    record ctx {
      configurations = insert (anon_key name) (text (anon_name name)) ctx.configurations;
    },
  )

  unfoldable pub read_anon : Text → Exec Text
  read_anon name ctx = anon_stored name (lookup (anon_key name) ctx.configurations) ctx

  abbrev pub or_invalid : Option Bool → Exec Bool
  or_invalid none ctx = (raise invalid_boolean, ctx)
  or_invalid (some b) ctx = (return b, ctx)

  unfoldable pub coerced : Text → Exec Bool
  coerced value = or_invalid (coerce_bool p.unicode value)

  abbrev by_float : Text → Text → Option Bool → Bool
  by_float left right (some close) = close
  by_float left right none = text_eq left right

  abbrev by_bool : Text → Text → Option Bool → Option Bool → Bool
  by_bool left right (some a) (some b) = a && b || not a && not b
  by_bool left right _ _ = by_float left right (p.float_close left right)

  -- `_equals` of equals.py: as booleans, as numbers, or as texts
  unfoldable pub equal_texts : Text → Text → Bool
  equal_texts left right = by_bool left right (bool_of (to_lower left)) (bool_of (to_lower right))

  abbrev dirname_of : Option Text → Text
  dirname_of none = chars "$(dirname)"
  dirname_of (some []) = chars "$(dirname)"
  dirname_of (some (c ∷ dir)) = c ∷ dir

  abbrev or_shown : Substitution → Result Error Text → Text
  or_shown s (return t) = t
  or_shown s (raise e) = shown s

  -- `LaunchContext.perform_substitution`: what the exception interrupted stays done.
  unfoldable pub attempt : Substitution → Exec Text → Exec Text
  attempt s m ctx = (return (or_shown s (m ctx).0), (m ctx).1)

  -- The `perform` of each class, from those of its operands.
  abbrev pub perform_var : Exec Text → Exec Text
  perform_var name = do x ← name; read_variable x

  abbrev pub perform_env : Exec Text → Exec Text
  perform_env name = do x ← name; read_environment x

  abbrev pub perform_env_or : Exec Text → Exec Text → Exec Text
  perform_env_or name default = do
    x ← name
    λ ctx. elim (find_variable x ctx) [ none ↦ default ctx | some value ↦ (return value, ctx) ]

  abbrev pub perform_anon : Exec Text → Exec Text
  perform_anon name = do x ← name; read_anon x

  abbrev pub perform_dirname : Exec Text
  perform_dirname ctx = (return (dirname_of ctx.launch_file_dir), ctx)

  abbrev pub perform_not : Exec Text → Exec Text
  perform_not value = do x ← value; b ← coerced x; pure (bool_text (not b))

  abbrev pub perform_and : Exec Text → Exec Text → Exec Text
  perform_and left right = do
    x ← left
    a ← coerced x
    y ← right
    b ← coerced y
    pure (bool_text (a && b))

  abbrev pub perform_or : Exec Text → Exec Text → Exec Text
  perform_or left right = do
    x ← left
    a ← coerced x
    y ← right
    b ← coerced y
    pure (bool_text (a || b))

  abbrev pub perform_equals : Exec Text → Exec Text → Exec Text
  perform_equals left right = do x ← left; y ← right; pure (bool_text (equal_texts x y))

  abbrev pub perform_not_equals : Exec Text → Exec Text → Exec Text
  perform_not_equals left right = do x ← left; y ← right; pure (bool_text (not (equal_texts x y)))

  -- Without an else value, that is the empty text.
  abbrev pub perform_if : Exec Text → Exec Text → Exec Text → Exec Text
  perform_if condition if_value else_value = do
    x ← condition
    b ← coerced x
    if b then if_value else else_value

  -- `perform`, and `resolve_substitutions_from_tokens`, through which an exception passes.
  unfoldable mutual
    unfolding attempt read_variable read_environment find_variable read_anon coerced equal_texts

    pub perform : Substitution → Exec Text
    perform (literal t) = pure t
    perform (var name) = perform_var (perform_all name)
    perform (env name) = perform_env (perform_all name)
    perform (env_or name default) = perform_env_or (perform_all name) (perform_all default)
    perform (anon name) = perform_anon (perform_safely name)
    perform dirname = perform_dirname
    perform (negation value) = perform_not (perform_all value)
    perform (conjunction left right) = perform_and (perform_all left) (perform_all right)
    perform (disjunction left right) = perform_or (perform_all left) (perform_all right)
    perform (equals left right) = perform_equals (perform_all left) (perform_all right)
    perform (not_equals left right) = perform_not_equals (perform_all left) (perform_all right)
    perform (if_then condition if_value) =
        perform_if (perform_all condition) (perform_all if_value) (pure [])
    perform (if_else condition if_value else_value) =
        perform_if (perform_all condition) (perform_all if_value) (perform_all else_value)

    pub perform_all : Substitutions → Exec Text
    perform_all done = pure []
    perform_all (next s rest) = do x ← perform s; y ← perform_all rest; pure (x ++ y)

    -- `perform_substitutions`, which `resolve_value` is on a list: a substitution that raises stands
    -- as its own text.
    pub perform_safely : Substitutions → Exec Text
    perform_safely done = pure []
    perform_safely (next s rest) = do
      x ← attempt s (perform s)
      y ← perform_safely rest
      pure (x ++ y)
