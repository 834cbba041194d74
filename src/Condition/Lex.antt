-- ===== src/Condition/Lex.antt =====
-- `_tokenize_condition` of roscope/indexer.py.
use roscope.Base.{
  ℕ, zero, suc, Text, chars, Bool, not, ◌||◌, Option, none, some, List, [], ◌∷◌, Result, return,
  raise, ◌>>=◌, ◌==◌, if◌then◌else◌, text_eq, length, drop_while, Unicode, is_space, is_alnum,
  take_while,
}

pub data Comparison : Type 0 where
  eq ne lt le gt ge : Comparison

-- The token pairs ("LPAREN", "("), ("RPAREN", ")"), ("CMP", op), ("VAR", name), ("LIT", text),
-- ("AND", "and") and ("OR", "or").
pub data Token : Type 0 where
  lparen rparen and_token or_token : Token
  cmp : Comparison → Token
  var : Text → Token
  lit : Text → Token

-- The reasons of the `ValueError`s of the tokenizer and the parser. `out_of_fuel` is the model's:
-- no condition gives it.
pub data Error : Type 0 where
  empty_variable unterminated_string expected_term expected_operator expected_rparen : Error
  unexpected_token out_of_fuel : Error
  unexpected_character : ℕ → Error

abbrev pub two_char_operator : ℕ → ℕ → Option Comparison
two_char_operator c d =
    if not (d == b'=')
    then none
    else if c == b'='
    then some eq
    else if c == b'!'
    then some ne
    else if c == b'<'
    then some le
    else if c == b'>'
    then some ge
    else none

abbrev pub starts_operator : ℕ → Text → Option Comparison
starts_operator c [] = none
starts_operator c (d ∷ s) = two_char_operator c d

abbrev pub drop_one : Text → Text
drop_one [] = []
drop_one (c ∷ s) = s

-- A bare word is a literal unless it is `and` or `or`.
unfoldable pub word_token : Text → Token
word_token word =
    if text_eq word (chars "and")
    then and_token
    else if text_eq word (chars "or")
    then or_token
    else lit word

-- The name behind `$`.
abbrev pub variable_token : Text → Text → Result Error (Option Token × Text)
variable_token [] rest = raise empty_variable
variable_token (c ∷ name) rest = return (some (var (c ∷ name)), rest)

-- The text behind an opening quote, and what stands from the closing quote on.
abbrev pub quoted_token : Text → Text → Result Error (Option Token × Text)
quoted_token text [] = raise unterminated_string
quoted_token text (quote ∷ rest) = return (some (lit text), rest)

module _ (u : Unicode) where
  unfoldable pub is_name_char : ℕ → Bool
  unfolding is_alnum
  is_name_char c = is_alnum u c || c == b'_'

  unfoldable pub is_word_char : ℕ → Bool
  unfolding is_alnum
  is_word_char c = is_alnum u c || c == b'_' || c == b'-'

  -- One round of the loop, at the character `c` before the text `s`: the token found, if any, and
  -- the text behind it.
  unfoldable pub next_token : ℕ → Text → Result Error (Option Token × Text)
  unfolding is_space is_name_char is_word_char word_token
  next_token c s =
      if is_space u c
      then return (none, s)
      else if c == b'('
      then return (some lparen, s)
      else if c == b')'
      then return (some rparen, s)
      else elim (starts_operator c s) [
        | some op ↦ return (some (cmp op), drop_one s)
        | none ↦
            if c == b'<'
            then return (some (cmp lt), s)
            else if c == b'>'
            then return (some (cmp gt), s)
            else if c == b'$'
            then variable_token (take_while is_name_char s) (drop_while is_name_char s)
            else if c == b'"' || c == b'\''
            then quoted_token (take_while (λ d. not (d == c)) s) (drop_while (λ d. not (d == c)) s)
            else if is_word_char c
            then return
                (some (word_token (take_while is_word_char (c ∷ s))), drop_while is_word_char s)
            else raise (unexpected_character c)
      ]

  abbrev pub push : Option Token → List Token → List Token
  push none tokens = tokens
  push (some tok) tokens = tok ∷ tokens

  -- The `while` loop over the characters.
  unfoldable pub tokenize : ℕ → Text → Result Error (List Token)
  tokenize fuel [] = return []
  tokenize zero (c ∷ s) = raise out_of_fuel
  tokenize (suc fuel) (c ∷ s) = do
    found ← next_token c s
    tokens ← tokenize fuel found.1
    return (push found.0 tokens)

  -- Every round consumes a character.
  unfoldable pub tokenize_condition : Text → Result Error (List Token)
  unfolding tokenize
  tokenize_condition s = tokenize (length s) s
