-- ===== src/Launch/Substitution.antt =====
-- Substitutions and their values: substitution.py, substitutions/*.py and the functions of
-- helpers.py and launch_context.py that perform them.
use roscope.Base.{
  Unicode, strip, to_lower, Text, chars, Dict, Bool, true, false, [], ◌∷◌, ◌++◌, Option, none, some,
  contains_text, if◌then◌else◌,
}
use roscope.Base.Stateful.{Stateful}
use roscope.Launch.Context.{Entries, Context}

mutual
  pub data Substitution : Type 0 where
    literal : Text → Substitution
    var : Substitutions → Substitution
    env : Substitutions → Substitution
    env_or : Substitutions → Substitutions → Substitution
    anon : Substitutions → Substitution
    dirname : Substitution
    negation : Substitutions → Substitution
    conjunction disjunction : Substitutions → Substitutions → Substitution
    equals not_equals : Substitutions → Substitutions → Substitution
    if_then : Substitutions → Substitutions → Substitution
    if_else : Substitutions → Substitutions → Substitutions → Substitution

  pub data Substitutions : Type 0 where
    done : Substitutions
    next : Substitution → Substitutions → Substitutions

-- What the program takes from Python and the process.
pub record Platform : Type 0 where
  pub unicode : Unicode
  -- `os.environ`
  pub os_environ : Dict Text
  -- the first eight hexadecimal digits of the MD5 sum
  pub md5_prefix : Text → Text
  -- `math.isclose(float(a), float(b))`, and `none` where `float` raises
  pub float_close : Text → Text → Option Bool
  -- `str` of a list of pairs
  pub str_entries : Entries → Text
  -- `str` of the number that `int`, or else `float`, reads in a text, and `none` where both raise
  pub str_number : Text → Option Text

-- The exceptions that leave a `perform` or an `execute`.
pub data Error : Type 0 where
  invalid_boolean attribute_error type_error : Error

-- A method on the context.
abbrev pub Exec : Type 0 → Type 0
Exec = Stateful Context Error

abbrev pub bool_of : Text → Option Bool
bool_of v =
    if contains_text (chars "true" ∷ chars "1" ∷ []) v
    then some true
    else if contains_text (chars "false" ∷ chars "0" ∷ []) v
    then some false
    else none

-- `_coerce_bool` of boolean.py and `_is_truthy` of helpers.py. Of the letters beyond ASCII none has
-- a lower case that occurs in the four words.
unfoldable pub coerce_bool : Unicode → Text → Option Bool
unfolding strip
coerce_bool u value = bool_of (to_lower (strip u value))

-- `str(b).lower()`
abbrev pub bool_text : Bool → Text
bool_text true = chars "true"
bool_text false = chars "false"

abbrev pub parenthesised : Text → Text → Text
parenthesised name body = chars "$(" ++ (name ++ (b' ' ∷ body ++ chars ")"))

-- `str(substitution)`, and the texts of a list joined.
unfoldable mutual
  pub shown : Substitution → Text
  shown (literal t) = t
  shown (var name) = parenthesised (chars "var") (shown_all name)
  shown (env name) = parenthesised (chars "env") (shown_all name)
  shown (env_or name default) =
      parenthesised (chars "env") (shown_all name ++ (b' ' ∷ shown_all default))
  shown (anon name) = parenthesised (chars "anon") (shown_all name)
  shown dirname = chars "$(dirname)"
  shown (negation value) = parenthesised (chars "not") (shown_all value)
  shown (conjunction left right) =
      parenthesised (chars "and") (shown_all left ++ (b' ' ∷ shown_all right))
  shown (disjunction left right) =
      parenthesised (chars "or") (shown_all left ++ (b' ' ∷ shown_all right))
  shown (equals left right) =
      parenthesised (chars "equals") (shown_all left ++ (b' ' ∷ shown_all right))
  shown (not_equals left right) =
      parenthesised (chars "not-equals") (shown_all left ++ (b' ' ∷ shown_all right))
  shown (if_then condition if_value) =
      parenthesised (chars "if") (shown_all condition ++ (b' ' ∷ shown_all if_value))
  shown (if_else condition if_value else_value) =
      parenthesised (chars "if")
        (shown_all condition ++ (b' ' ∷ shown_all if_value ++ (b' ' ∷ shown_all else_value)))

  pub shown_all : Substitutions → Text
  shown_all done = []
  shown_all (next s rest) = shown s ++ shown_all rest
