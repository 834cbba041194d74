-- ===== src/Condition/Parse.antt =====
-- `_ConditionParser` of roscope/indexer.py. The tokens that are left stand for `pos`.
use roscope.Base.{
  ℕ, zero, suc, ◌+◌, ◌*◌, Text, Bool, not, ◌&&◌, ◌||◌, Option, none, some, List, [], ◌∷◌, Result,
  return, raise, ◌>>=◌, text_eq, text_lt, length,
}
use roscope.Condition.Lex.{
  Comparison, eq, ne, lt, le, gt, ge, Token, lparen, rparen, and_token, or_token, cmp, var, lit,
  Error, expected_term, expected_operator, expected_rparen, out_of_fuel,
}

unfoldable pub compare_texts : Comparison → Text → Text → Bool
compare_texts eq lhs rhs = text_eq lhs rhs
compare_texts ne lhs rhs = not (text_eq lhs rhs)
compare_texts lt lhs rhs = text_lt lhs rhs
compare_texts le lhs rhs = text_lt lhs rhs || text_eq lhs rhs
compare_texts gt lhs rhs = text_lt rhs lhs
compare_texts ge lhs rhs = text_lt rhs lhs || text_eq lhs rhs

abbrev pub or_empty : Option Text → Text
or_empty none = []
or_empty (some text) = text

module _ (env_lookup : Text → Option Text) where
  unfoldable pub resolve : Token → Result Error Text
  resolve (var name) = return (or_empty (env_lookup name))
  resolve (lit text) = return text
  resolve _ = raise expected_term

  unfoldable pub comparison_rhs : Text → Comparison → List Token → Result Error (Bool × List Token)
  comparison_rhs lhs op [] = raise expected_term
  comparison_rhs lhs op (tok ∷ rest) = do rhs ← resolve tok; return (compare_texts op lhs rhs, rest)

  unfoldable pub comparison_operator : Text → List Token → Result Error (Bool × List Token)
  unfolding comparison_rhs
  comparison_operator lhs (cmp op ∷ rest) = comparison_rhs lhs op rest
  comparison_operator lhs _ = raise expected_operator

  unfoldable pub parse_comparison : List Token → Result Error (Bool × List Token)
  unfolding comparison_operator
  parse_comparison [] = raise expected_term
  parse_comparison (tok ∷ rest) = do lhs ← resolve tok; comparison_operator lhs rest

  unfoldable pub close_group : Bool × List Token → Result Error (Bool × List Token)
  close_group (result, rparen ∷ rest) = return (result, rest)
  close_group (result, _) = raise expected_rparen

  unfoldable mutual
    -- `_parse_or`, and the `while` loop in it
    pub parse_or : ℕ → List Token → Result Error (Bool × List Token)
    parse_or zero tokens = raise out_of_fuel
    parse_or (suc fuel) tokens = do first ← parse_and fuel tokens; or_loop fuel first.0 first.1

    pub or_loop : ℕ → Bool → List Token → Result Error (Bool × List Token)
    or_loop zero result tokens = raise out_of_fuel
    or_loop (suc fuel) result (or_token ∷ tokens) = do
      rhs ← parse_and fuel tokens
      or_loop fuel (result || rhs.0) rhs.1
    or_loop (suc fuel) result tokens = return (result, tokens)

    -- `_parse_and`, and the `while` loop in it
    pub parse_and : ℕ → List Token → Result Error (Bool × List Token)
    parse_and zero tokens = raise out_of_fuel
    parse_and (suc fuel) tokens = do first ← parse_atom fuel tokens; and_loop fuel first.0 first.1

    pub and_loop : ℕ → Bool → List Token → Result Error (Bool × List Token)
    and_loop zero result tokens = raise out_of_fuel
    and_loop (suc fuel) result (and_token ∷ tokens) = do
      rhs ← parse_atom fuel tokens
      and_loop fuel (result && rhs.0) rhs.1
    and_loop (suc fuel) result tokens = return (result, tokens)

    pub parse_atom : ℕ → List Token → Result Error (Bool × List Token)
    parse_atom zero tokens = raise out_of_fuel
    parse_atom (suc fuel) (lparen ∷ tokens) = do result ← parse_or fuel tokens; close_group result
    parse_atom (suc fuel) tokens = parse_comparison tokens

  unfoldable pub parse_expr : ℕ → List Token → Result Error (Bool × List Token)
  parse_expr = parse_or

-- Three calls for each token, and three at the end.
abbrev pub fuel_for : List Token → ℕ
fuel_for tokens = 3 * length tokens + 3
