-- ===== src/Condition.antt =====
-- The evaluator of REP-149 conditions in roscope/indexer.py: `Lex` is the tokenizer, `Parse` the
-- recursive-descent evaluator, `Grammar` the expressions that it is meant to read.
pub mod Lex
pub mod Parse
pub mod Grammar
pub mod Lexed
pub mod Total
pub mod Sound
pub mod Complete
mod Tests
use roscope.Base.{Unicode, Text, Bool, true, Option, List, [], ◌∷◌, Result, return, raise, ◌>>=◌}
use Lex.{Token, Error, unexpected_token, tokenize_condition}
use Parse.{parse_expr, fuel_for}

-- `if parser.pos != len(parser.tokens): raise …`
abbrev pub finish : Bool × List Token → Result Error Bool
finish (result, []) = return result
finish (result, tok ∷ rest) = raise unexpected_token

-- What `_evaluate_condition_impl` does with the tokens.
unfoldable pub evaluate_tokens : (Text → Option Text) → List Token → Result Error Bool
evaluate_tokens env_lookup [] = return true
evaluate_tokens env_lookup (tok ∷ tokens) =
    parse_expr env_lookup (fuel_for (tok ∷ tokens)) (tok ∷ tokens) >>= finish

unfoldable pub evaluate_condition : Unicode → (Text → Option Text) → Text → Result Error Bool
evaluate_condition u env_lookup condition =
    tokenize_condition u condition >>= evaluate_tokens env_lookup
