-- ===== src/Condition/Complete.antt =====
-- `_ConditionParser` of roscope/indexer.py on the tokens of the expressions of the grammar.
use roscope.Base.{
  ℕ, zero, suc, ◌+◌, ◌*◌, ◌<◌, ◌≤◌, ◌≡◌, refl, ap, ◌∙◌, Text, Bool, true, false, ◌&&◌, ◌||◌, Option,
  List, ◌∷◌, Result, return, arith, length,
}
use roscope.Condition.Lex.{Comparison, Token, rparen, and_token, or_token, cmp, Error}
use roscope.Condition.Parse.{
  resolve, parse_comparison, close_group, parse_or, or_loop, parse_and, and_loop, parse_atom,
  compare_texts,
}
use roscope.Condition.Grammar.{
  Term, variable, literal, Disjunction, disjunction, Alternatives, no_alternatives, or_else,
  Conjunction, conjunction, Conditions, no_conditions, and_also, Atom, comparison, group, write_or,
  write_alternatives, write_and, write_conditions, write_atom, value_or, value_alternatives,
  value_and, value_conditions, value_atom, term_token, term_value,
}

-- The tokens do not go on with `and`, or with `or`.
abbrev pub NotAnd : List Token → Type 0
NotAnd (and_token ∷ ts) = ⊥
NotAnd _ = Unit

abbrev pub NotOr : List Token → Type 0
NotOr (or_token ∷ ts) = ⊥
NotOr _ = Unit

mutual
  unfolding write_or write_alternatives write_and write_conditions write_atom

  pub length-write_or : (d : Disjunction) (ts : List Token) → length ts < length (write_or d ts)
  length-write_or (disjunction c more) ts =
      omega
        (arith, length-write_and c (write_alternatives more ts), length-write_alternatives more ts)

  length-write_alternatives :
      (a : Alternatives) (ts : List Token) → length ts ≤ length (write_alternatives a ts)
  length-write_alternatives no_alternatives ts = omega arith
  length-write_alternatives (or_else c more) ts =
      omega
        (arith, length-write_and c (write_alternatives more ts), length-write_alternatives more ts)

  length-write_and : (c : Conjunction) (ts : List Token) → length ts < length (write_and c ts)
  length-write_and (conjunction a more) ts =
      omega (arith, length-write_atom a (write_conditions more ts), length-write_conditions more ts)

  length-write_conditions :
      (a : Conditions) (ts : List Token) → length ts ≤ length (write_conditions a ts)
  length-write_conditions no_conditions ts = omega arith
  length-write_conditions (and_also a more) ts =
      omega (arith, length-write_atom a (write_conditions more ts), length-write_conditions more ts)

  length-write_atom : (a : Atom) (ts : List Token) → length ts < length (write_atom a ts)
  length-write_atom (comparison lhs op rhs) ts = omega arith
  length-write_atom (group d) ts = omega (arith, length-write_or d (rparen ∷ ts))

NotAnd-alternatives :
    (a : Alternatives) (ts : List Token) → NotAnd ts → NotAnd (write_alternatives a ts)
unfolding write_alternatives
NotAnd-alternatives no_alternatives ts h = h
NotAnd-alternatives (or_else c more) ts h = tt

abbrev with_rest : List Token → Bool → Result Error (Bool × List Token)
with_rest ts v = return (v, ts)

or_regroup : (b c d : Bool) → (b || c) || d ≡ b || (c || d)
or_regroup b c d = ground arith

and_regroup : (b c d : Bool) → (b && c) && d ≡ b && (c && d)
and_regroup b c d = ground arith

module _ (env_lookup : Text → Option Text) where
  or_loop-stops :
      (f : ℕ) (b : Bool) (ts : List Token)
      → NotOr ts
      → or_loop env_lookup (suc f) b ts ≡ return (b || false, ts)
  unfolding or_loop
  or_loop-stops f b ts k = ground arith

  and_loop-stops :
      (f : ℕ) (b : Bool) (ts : List Token)
      → NotAnd ts
      → and_loop env_lookup (suc f) b ts ≡ return (b && true, ts)
  unfolding and_loop
  and_loop-stops f b ts k = ground arith

  parse-comparison :
      (lhs : Term) (op : Comparison) (rhs : Term) (f : ℕ) (ts : List Token)
      → parse_atom env_lookup (suc f) (term_token lhs ∷ cmp op ∷ term_token rhs ∷ ts)
        ≡ return (compare_texts op (term_value env_lookup lhs) (term_value env_lookup rhs), ts)
  unfolding parse_atom parse_comparison resolve
  parse-comparison (variable m) op (variable n) f ts = refl
  parse-comparison (variable m) op (literal n) f ts = refl
  parse-comparison (literal m) op (variable n) f ts = refl
  parse-comparison (literal m) op (literal n) f ts = refl

  mutual
    unfolding parse_or or_loop parse_and and_loop parse_atom parse_comparison close_group write_or
        write_alternatives write_and write_conditions write_atom value_or value_alternatives
        value_and value_conditions value_atom

    pub or_complete :
        (d : Disjunction) (f : ℕ) (ts : List Token)
        → 3 * length (write_or d ts) + 3 ≤ f
        → NotOr ts
        → NotAnd ts
        → parse_or env_lookup f (write_or d ts) ≡ return (value_or env_lookup d, ts)
    or_complete d zero ts h k l = absurd (omega arith)
    or_complete (disjunction c more) (suc f) ts h k l =
        rw
          (and_complete c f (write_alternatives more ts) (omega arith)
            (NotAnd-alternatives more ts l))
          (alternatives_complete more f (value_and env_lookup c) ts
            (omega (arith, length-write_and c (write_alternatives more ts))) k l)

    alternatives_complete :
        (a : Alternatives) (f : ℕ) (b : Bool) (ts : List Token)
        → 3 * length (write_alternatives a ts) + 1 ≤ f
        → NotOr ts
        → NotAnd ts
        → or_loop env_lookup f b (write_alternatives a ts)
          ≡ return (b || value_alternatives env_lookup a, ts)
    alternatives_complete a zero b ts h k l = absurd (omega arith)
    alternatives_complete no_alternatives (suc f) b ts h k l = or_loop-stops f b ts k
    alternatives_complete (or_else c more) (suc f) b ts h k l =
        rw
          (and_complete c f (write_alternatives more ts) (omega arith)
            (NotAnd-alternatives more ts l))
          (alternatives_complete more f (b || value_and env_lookup c) ts
              (omega (arith, length-write_and c (write_alternatives more ts))) k l
            ∙ ap (with_rest ts)
                (or_regroup b (value_and env_lookup c) (value_alternatives env_lookup more)))

    and_complete :
        (c : Conjunction) (f : ℕ) (ts : List Token)
        → 3 * length (write_and c ts) + 2 ≤ f
        → NotAnd ts
        → parse_and env_lookup f (write_and c ts) ≡ return (value_and env_lookup c, ts)
    and_complete c zero ts h l = absurd (omega arith)
    and_complete (conjunction a more) (suc f) ts h l =
        rw (atom_complete a f (write_conditions more ts) (omega arith)) (
          conditions_complete more f (value_atom env_lookup a) ts
            (omega (arith, length-write_atom a (write_conditions more ts))) l)

    conditions_complete :
        (a : Conditions) (f : ℕ) (b : Bool) (ts : List Token)
        → 3 * length (write_conditions a ts) + 1 ≤ f
        → NotAnd ts
        → and_loop env_lookup f b (write_conditions a ts)
          ≡ return (b && value_conditions env_lookup a, ts)
    conditions_complete a zero b ts h l = absurd (omega arith)
    conditions_complete no_conditions (suc f) b ts h l = and_loop-stops f b ts l
    conditions_complete (and_also a more) (suc f) b ts h l =
        rw (atom_complete a f (write_conditions more ts) (omega arith)) (
          conditions_complete more f (b && value_atom env_lookup a) ts
            (omega (arith, length-write_atom a (write_conditions more ts))) l
          ∙ ap (with_rest ts)
              (and_regroup b (value_atom env_lookup a) (value_conditions env_lookup more)))

    atom_complete :
        (a : Atom) (f : ℕ) (ts : List Token)
        → 3 * length (write_atom a ts) + 1 ≤ f
        → parse_atom env_lookup f (write_atom a ts) ≡ return (value_atom env_lookup a, ts)
    atom_complete a zero ts h = absurd (omega arith)
    atom_complete (comparison lhs op rhs) (suc f) ts h = parse-comparison lhs op rhs f ts
    atom_complete (group d) (suc f) ts h = rw (or_complete d f (rparen ∷ ts) (omega arith) tt tt)
