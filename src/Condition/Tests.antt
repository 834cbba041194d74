-- ===== src/Condition/Tests.antt =====
-- Runs of the evaluator, and the theorems about it at concrete inputs.
use roscope.Base.{
  List, is_space, contains_text, Unicode, ◌≢◌, ◌⊎◌, ◌↔◌, Bool, Text, chars, ◌≡◌, refl, true, false,
  Option, none, some, [], ◌∷◌, return, raise, text_eq, text_lt, if◌then◌else◌,
}
use roscope.Condition.Lex.{out_of_fuel, eq, lt, and_token}
use roscope.Condition.Grammar.{
  Term, Disjunction, disjunction, no_alternatives, or_else, conjunction, no_conditions, and_also,
  comparison, group, literal, write_or, value_or,
}
use roscope.Condition.Total.{evaluate_condition_total}
use roscope.Condition.Sound.{evaluate_tokens_iff}
use roscope.Condition.Lexed.{
  AreSpelled, spaced, opening, closing, and_word, or_word, operator, variable, double_quoted,
  single_quoted, bare, evaluate_condition-written,
}
use roscope.Condition.{evaluate_tokens, evaluate_condition}
use roscope.Condition.Lex.{
  tokenize_condition, next_token, is_name_char, is_word_char, expected_rparen,
}
use roscope.Condition.Parse.{
  resolve, parse_comparison, close_group, parse_or, or_loop, parse_and, and_loop, parse_atom,
  parse_expr, compare_texts,
}

abbrev ascii_only : Unicode
ascii_only = record { wide_space = λ c. false; wide_alnum = λ c. false }

abbrev ros2 : Text → Option Text
ros2 name = if text_eq name (chars "ROS_VERSION") then some (chars "2") else none

condition_true :
    evaluate_condition ascii_only ros2 (chars "$ROS_VERSION == 2 and (a<b or x=='')") ≡ return true
unfolding evaluate_condition evaluate_tokens tokenize_condition next_token parse_expr parse_or
    or_loop parse_and and_loop parse_atom parse_comparison resolve close_group compare_texts text_eq
    text_lt
condition_true = refl

condition_open : evaluate_condition ascii_only ros2 (chars "(a != b") ≡ raise expected_rparen
unfolding evaluate_condition evaluate_tokens tokenize_condition next_token parse_expr parse_or
    or_loop parse_and and_loop parse_atom parse_comparison resolve close_group compare_texts text_eq
    text_lt
condition_open = refl

-- $ROS_VERSION == 2 and (a < b or "x y" == $HOME)
abbrev sample : Disjunction
sample =
    disjunction
      (conjunction (comparison (Term.variable (chars "ROS_VERSION")) eq (literal (chars "2"))) (
        and_also
          (group (
            disjunction
              (conjunction (comparison (literal (chars "a")) lt (literal (chars "b")))
                no_conditions)
              (or_else
                (conjunction (comparison (literal (chars "x y")) eq (Term.variable (chars "HOME")))
                  no_conditions)
                no_alternatives)))
          no_conditions))
      no_alternatives

-- Some of its literals are bare, and some in quotes of the two kinds.
abbrev sample_words : List Text
sample_words =
    chars "$ROS_VERSION"
    ∷ chars "=="
    ∷ chars "2"
    ∷ chars "and"
    ∷ chars "("
    ∷ chars "a"
    ∷ chars "<"
    ∷ chars "\"b\""
    ∷ chars "or"
    ∷ chars "'x y'"
    ∷ chars "=="
    ∷ chars "$HOME"
    ∷ chars ")"
    ∷ []

sample-AreSpelled : AreSpelled ascii_only (write_or sample []) sample_words
unfolding write_or is_name_char is_word_char is_space contains_text text_eq
sample-AreSpelled = (
  variable _ _ refl,
  (
    operator eq,
    (
      bare _ _ refl refl refl,
      (
        and_word,
        (
          opening,
          (
            bare _ _ refl refl refl,
            (
              operator lt,
              (
                double_quoted (chars "b") refl,
                (
                  or_word,
                  (
                    single_quoted (chars "x y") refl,
                    (operator eq, (variable _ _ refl, (closing, tt))),
                  ),
                ),
              ),
            ),
          ),
        ),
      ),
    ),
  ),
)

evaluate_condition_total_example :
    evaluate_condition ascii_only ros2 (chars "$ROS_VERSION == 2 and ((") ≢ raise out_of_fuel
evaluate_condition_total_example =
    evaluate_condition_total ascii_only ros2 (chars "$ROS_VERSION == 2 and ((")

evaluate_tokens_iff_example : (evaluate_tokens ros2 (and_token ∷ []) ≡ return true) ↔ (
    ((◌≡◌ {A = _} (and_token ∷ []) []) × (◌≡◌ {A = Bool} true true))
    ⊎ ((d : Disjunction) × (and_token ∷ [] ≡ write_or d []) × (value_or ros2 d ≡ true)))
evaluate_tokens_iff_example = evaluate_tokens_iff ros2 (and_token ∷ []) true

evaluate_condition-written_example :
    evaluate_condition ascii_only ros2 (spaced sample_words) ≡ return (value_or ros2 sample)
evaluate_condition-written_example =
    evaluate_condition-written ascii_only ros2 sample sample_words sample-AreSpelled

value_sample : value_or ros2 sample ≡ true
unfolding value_or compare_texts text_eq text_lt
value_sample = refl
