-- ===== src/Condition/Grammar.antt =====
-- REP-149 conditions as a grammar, with their values: what the evaluator is meant to read.
use roscope.Base.{Text, Bool, true, false, ◌&&◌, ◌||◌, Option, List, ◌∷◌}
use roscope.Condition.Lex.{Comparison, Token, lparen, rparen, and_token, or_token, cmp, var, lit}
use roscope.Condition.Parse.{compare_texts, or_empty}

pub data Term : Type 0 where
  variable literal : Text → Term

-- `Disjunction` is a chain of conjunctions joined by `or`, `Conjunction` a chain of atoms joined
-- by `and`; `Alternatives` and `Conditions` are the parts behind the first.
mutual
  pub data Disjunction : Type 0 where
    disjunction : Conjunction → Alternatives → Disjunction

  pub data Alternatives : Type 0 where
    no_alternatives : Alternatives
    or_else : Conjunction → Alternatives → Alternatives

  pub data Conjunction : Type 0 where
    conjunction : Atom → Conditions → Conjunction

  pub data Conditions : Type 0 where
    no_conditions : Conditions
    and_also : Atom → Conditions → Conditions

  pub data Atom : Type 0 where
    comparison : Term → Comparison → Term → Atom
    group : Disjunction → Atom

abbrev pub term_token : Term → Token
term_token (variable name) = var name
term_token (literal text) = lit text

-- The tokens of an expression, before the tokens `rest`.
unfoldable mutual
  pub write_or : Disjunction → List Token → List Token
  write_or (disjunction c more) rest = write_and c (write_alternatives more rest)

  pub write_alternatives : Alternatives → List Token → List Token
  write_alternatives no_alternatives rest = rest
  write_alternatives (or_else c more) rest = or_token ∷ write_and c (write_alternatives more rest)

  pub write_and : Conjunction → List Token → List Token
  write_and (conjunction a more) rest = write_atom a (write_conditions more rest)

  pub write_conditions : Conditions → List Token → List Token
  write_conditions no_conditions rest = rest
  write_conditions (and_also a more) rest = and_token ∷ write_atom a (write_conditions more rest)

  pub write_atom : Atom → List Token → List Token
  write_atom (comparison lhs op rhs) rest = term_token lhs ∷ cmp op ∷ term_token rhs ∷ rest
  write_atom (group d) rest = lparen ∷ write_or d (rparen ∷ rest)

module _ (env_lookup : Text → Option Text) where
  abbrev pub term_value : Term → Text
  term_value (variable name) = or_empty (env_lookup name)
  term_value (literal text) = text

  -- The value of an expression: a disjunction of conjunctions of comparisons.
  unfoldable mutual
    pub value_or : Disjunction → Bool
    value_or (disjunction c more) = value_and c || value_alternatives more

    pub value_alternatives : Alternatives → Bool
    value_alternatives no_alternatives = false
    value_alternatives (or_else c more) = value_and c || value_alternatives more

    pub value_and : Conjunction → Bool
    value_and (conjunction a more) = value_atom a && value_conditions more

    pub value_conditions : Conditions → Bool
    value_conditions no_conditions = true
    value_conditions (and_also a more) = value_atom a && value_conditions more

    pub value_atom : Atom → Bool
    value_atom (comparison lhs op rhs) = compare_texts op (term_value lhs) (term_value rhs)
    value_atom (group d) = value_or d
