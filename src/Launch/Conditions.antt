-- ===== src/Launch/Conditions.antt =====
-- The condition classes of Python launch files, roscope/entities/conditions, against the conditions
-- of XML files, which are in Launch.Action.
use roscope.Base.{
  Text, chars, Bool, true, false, not, [], ◌∷◌, ◌++◌, Option, none, some, Result, return, raise,
  ◌≡◌, ◌↔◌, refl, sym, ap, ◌∙◌, append-nil, if◌then◌else◌, text_eq, contains_text, to_lower, strip,
  lookup,
}
use roscope.Base.Stateful.{continue, ◌>>=◌, pure}
use roscope.Launch.Context.{Context, Value, text, items}
use roscope.Launch.Substitution.{
  Substitution, Substitutions, next, done, Platform, Error, bool_of, coerce_bool,
}
use roscope.Launch.Perform.{perform, perform_all, cell_at}
use roscope.Launch.Action.{if_condition, unless_condition, evaluate, chosen, decide}
use roscope.Launch.Branches.{IsBoolean}

-- What a condition class holds: nothing, a substitution, or another object with its truth value.
pub data Held : Type 0 where
  no_condition : Held
  substitution : Substitution → Held
  object : Bool → Held

module _ (p : Platform) where
  abbrev pub is_true_text : Text → Bool
  is_true_text v = contains_text (chars "true" ∷ chars "1" ∷ []) v

  -- An exception makes the condition false.
  abbrev pub held_text : Result Error Text → Bool
  held_text (raise e) = false
  held_text (return t) = is_true_text (to_lower t)

  abbrev pub IfCondition : Type 0
  IfCondition = Held

  -- `IfCondition.evaluate`
  unfoldable pub if_evaluate : IfCondition → Context → Bool × Context
  unfolding perform contains_text
  if_evaluate no_condition ctx = (false, ctx)
  if_evaluate (object b) ctx = (b, ctx)
  if_evaluate (substitution s) ctx = (held_text (perform p s ctx).0, (perform p s ctx).1)

  -- `UnlessCondition.evaluate`
  unfoldable pub unless_evaluate : IfCondition → Context → Bool × Context
  unfolding if_evaluate
  unless_evaluate c ctx = (not (if_evaluate c ctx).0, (if_evaluate c ctx).1)

  abbrev pub value_text : Option Value → Context → Text
  value_text none ctx = []
  value_text (some (text t)) ctx = t
  value_text (some (items a)) ctx = p.str_entries (cell_at ctx.cells a)

  -- `LaunchConfigurationEquals.evaluate` and `LaunchConfigurationNotEquals.evaluate`
  unfoldable pub equals_evaluate : Text → Text → Context → Bool
  unfolding lookup text_eq
  equals_evaluate name expected ctx =
      text_eq (value_text (lookup name ctx.configurations) ctx) expected

  unfoldable pub not_equals_evaluate : Text → Text → Context → Bool
  unfolding equals_evaluate
  not_equals_evaluate name expected ctx = not (equals_evaluate name expected ctx)

  perform_all-one :
      (s : Substitution) (ctx : Context) → perform_all p (next s done) ctx ≡ perform p s ctx
  unfolding perform_all
  perform_all-one s ctx = by_result (perform p s ctx).0 (perform p s ctx).1
    where
      by_result :
          (r : Result Error Text) (c : Context)
          → continue r (λ x. pure [] >>= λ y. pure (x ++ y)) c ≡ (r, c)
      by_result (return t) c = rw (append-nil t) refl
      by_result (raise e) c = refl

  -- The text has b spaces at its ends.
  abbrev pub IsStripped : Result Error Text → Type 0
  IsStripped (raise e) = Unit
  IsStripped (return t) = strip p.unicode t ≡ t

  chosen-held :
      (s : Substitutions) (v : Text)
      → (is_true_text v ≡ chosen p (if_condition s) (bool_of v))
        × ((not (is_true_text v) ≡ chosen p (unless_condition s) (bool_of v))
            ↔ ((b : Bool) × (bool_of v ≡ some b)))
  chosen-held s v = by_tests (is_true_text v) (contains_text (chars "false" ∷ chars "0" ∷ []) v)
    where
      by_tests :
          (a c : Bool)
          → (a
              ≡ chosen p (if_condition s) (if a then some true else if c then some false else none))
            × ((not a
                  ≡ chosen p
                      (unless_condition s)
                      (if a then some true else if c then some false else none))
                ↔ ((b : Bool) × ((if a then some true else if c then some false else none)
                      ≡ some b)))
      by_tests true c = (refl, (λ h. (true, refl), λ h. refl))
      by_tests false true = (refl, (λ h. (false, refl), λ h. refl))
      by_tests false false = (refl, (λ h. cc, λ h. absurd (cc)))

  decide-held :
      (s : Substitutions) (r : Result Error Text)
      → IsStripped r
      → (held_text r ≡ decide p (if_condition s) r)
        × ((not (held_text r) ≡ decide p (unless_condition s) r) ↔ IsBoolean p r)
  unfolding coerce_bool
  decide-held s (raise e) stripped = (refl, (λ h. cc, λ h. absurd (never h)))
    where
      never : IsBoolean p (raise e) → ⊥
      never (t, b, same, valid) = cc
  decide-held s (return t) stripped =
      let c = chosen-held s (to_lower t) in
      rw same_bool
        (c.0, (λ h. let v = c.1.0 h in (t, v.0, refl, same_bool ∙ v.1), λ h. c.1.1 (value h)))
    where
      same_bool : coerce_bool p.unicode t ≡ bool_of (to_lower t)
      same_bool = ap (λ v. bool_of (to_lower v)) stripped

      moved :
          {t' : Text}
          → ◌≡◌ {A = Result Error Text} (return t) (return t')
          → coerce_bool p.unicode t ≡ coerce_bool p.unicode t'
      moved e = cc

      value : IsBoolean p (return t) → (b : Bool) × (bool_of (to_lower t) ≡ some b)
      value (t', b, same, e) = (b, sym same_bool ∙ moved same ∙ e)

  -- For a substitution that raises, or is performed to a text without spaces at its ends: `IfCondition`
  -- decides as `if` does in XML, and `UnlessCondition` as `unless` does exactly if the text is a
  -- boolean.
  pub if_evaluate-agrees :
      (s : Substitution) (ctx : Context)
      → IsStripped (perform p s ctx).0
      → (if_evaluate (substitution s) ctx ≡ evaluate p (if_condition (next s done)) ctx)
        × (((unless_evaluate (substitution s) ctx).0
              ≡ (evaluate p (unless_condition (next s done)) ctx).0)
            ↔ IsBoolean p (perform p s ctx).0)
  unfolding unless_evaluate evaluate
  if_evaluate-agrees s ctx stripped = rw (perform_all-one s ctx) (
      let d = decide-held (next s done) (perform p s ctx).0 stripped in
      (ap (λ b. (b, (perform p s ctx).1)) d.0, d.1))
