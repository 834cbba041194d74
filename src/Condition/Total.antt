-- ===== src/Condition/Total.antt =====
-- The fuel of the tokenizer and of the parser in roscope/indexer.py.
use roscope.Base.{
  take_while, Unicode, ℕ, zero, suc, ◌+◌, ◌*◌, ◌<◌, ◌≤◌, ◌≢◌, Text, Bool, ◌&&◌, ◌||◌, Option, List,
  [], ◌∷◌, Result, return, raise, ◌>>=◌, arith, length, drop_while, not, ◌==◌,
}
use roscope.Condition.{evaluate_tokens, evaluate_condition, finish}
use roscope.Condition.Lex.{
  Token, lparen, and_token, or_token, Error, out_of_fuel, tokenize, tokenize_condition, next_token,
  is_name_char, is_word_char, push, quoted_token, variable_token,
}
use roscope.Condition.Parse.{
  resolve, parse_comparison, close_group, parse_or, or_loop, parse_and, and_loop, parse_atom,
  parse_expr, fuel_for,
}

-- Fewer than `n` tokens are left, or the parser raised an error of the program.
abbrev pub Bounded : ℕ → Result Error (Bool × List Token) → Type 0
Bounded n (return r) = length r.1 < n
Bounded n (raise e) = e ≢ out_of_fuel

bind-Bounded :
    (m : Result Error (Bool × List Token))
    (k : Bool × List Token → Result Error (Bool × List Token)) (n p : ℕ)
    → Bounded n m
    → ((r : Bool × List Token) → length r.1 < n → Bounded p (k r))
    → Bounded p (m >>= k)
bind-Bounded (return r) k n p h f = f r h
bind-Bounded (raise e) k n p h f = h

weaken : (m : Result Error (Bool × List Token)) {n p : ℕ} → n ≤ p → Bounded n m → Bounded p m
weaken (return r) l h = omega arith
weaken (raise e) l h = h

module _ (env_lookup : Text → Option Text) where
  parse_comparison-Bounded :
      (ts : List Token) → Bounded (length ts) (parse_comparison env_lookup ts)
  unfolding parse_comparison resolve
  parse_comparison-Bounded ts = ground arith

  close_group-Bounded : (r : Bool × List Token) → Bounded (length r.1) (close_group env_lookup r)
  unfolding close_group
  close_group-Bounded r = ground arith

  mutual
    unfolding parse_or or_loop parse_and and_loop parse_atom

    or-Bounded :
        (f : ℕ) (ts : List Token)
        → 3 * length ts + 3 ≤ f
        → Bounded (length ts) (parse_or env_lookup f ts)
    or-Bounded zero ts h = absurd (omega arith)
    or-Bounded (suc f) ts h =
        bind-Bounded (parse_and env_lookup f ts) _ (length ts) (length ts)
          (and-Bounded f ts (omega arith))
          (λ r l. weaken (or_loop env_lookup f r.0 r.1) l (or_loop-Bounded f r.0 r.1 (omega arith)))

    or_loop-Bounded :
        (f : ℕ) (b : Bool) (ts : List Token)
        → 3 * length ts + 1 ≤ f
        → Bounded (suc (length ts)) (or_loop env_lookup f b ts)
    or_loop-Bounded zero b ts h = absurd (omega arith)
    or_loop-Bounded (suc f) b (or_token ∷ ts) h =
        bind-Bounded (parse_and env_lookup f ts) _ (length ts) (suc (suc (length ts)))
          (and-Bounded f ts (omega arith))
          (λ r l.
            weaken (or_loop env_lookup f (b || r.0) r.1) (omega arith)
              (or_loop-Bounded f (b || r.0) r.1 (omega arith)))
    or_loop-Bounded (suc f) b ts h = omega arith

    and-Bounded :
        (f : ℕ) (ts : List Token)
        → 3 * length ts + 2 ≤ f
        → Bounded (length ts) (parse_and env_lookup f ts)
    and-Bounded zero ts h = absurd (omega arith)
    and-Bounded (suc f) ts h =
        bind-Bounded (parse_atom env_lookup f ts) _ (length ts) (length ts)
          (atom-Bounded f ts (omega arith))
          (λ r l.
            weaken (and_loop env_lookup f r.0 r.1) l (and_loop-Bounded f r.0 r.1 (omega arith)))

    and_loop-Bounded :
        (f : ℕ) (b : Bool) (ts : List Token)
        → 3 * length ts + 1 ≤ f
        → Bounded (suc (length ts)) (and_loop env_lookup f b ts)
    and_loop-Bounded zero b ts h = absurd (omega arith)
    and_loop-Bounded (suc f) b (and_token ∷ ts) h =
        bind-Bounded (parse_atom env_lookup f ts) _ (length ts) (suc (suc (length ts)))
          (atom-Bounded f ts (omega arith))
          (λ r l.
            weaken (and_loop env_lookup f (b && r.0) r.1) (omega arith)
              (and_loop-Bounded f (b && r.0) r.1 (omega arith)))
    and_loop-Bounded (suc f) b ts h = omega arith

    atom-Bounded :
        (f : ℕ) (ts : List Token)
        → 3 * length ts + 1 ≤ f
        → Bounded (length ts) (parse_atom env_lookup f ts)
    atom-Bounded zero ts h = absurd (omega arith)
    atom-Bounded (suc f) (lparen ∷ ts) h =
        bind-Bounded (parse_or env_lookup f ts) _ (length ts) (suc (length ts))
          (or-Bounded f ts (omega arith))
          (λ r l. weaken (close_group env_lookup r) (omega arith) (close_group-Bounded r))
    atom-Bounded (suc f) ts h = parse_comparison-Bounded ts

  -- Whatever the tokens, the evaluator returns a value or raises an error of the program.
  pub evaluate_tokens_total : (ts : List Token) → evaluate_tokens env_lookup ts ≢ raise out_of_fuel
  unfolding evaluate_tokens parse_expr
  evaluate_tokens_total [] e = cc
  evaluate_tokens_total (t ∷ ts) e =
      finish_total (parse_or env_lookup (fuel_for (t ∷ ts)) (t ∷ ts)) _
        (or-Bounded (fuel_for (t ∷ ts)) (t ∷ ts) (omega arith)) e
    where
      finish_total :
          (m : Result Error (Bool × List Token)) (n : ℕ)
          → Bounded n m
          → (m >>= finish) ≢ raise out_of_fuel
      finish_total m n h e' = ground arith

length-drop_while : (p : ℕ → Bool) (s : Text) → length (drop_while p s) ≤ length s
length-drop_while p [] = omega arith
length-drop_while p (c ∷ s) = ground (arith, length-drop_while p s)

module _ (u : Unicode) where
  -- What is left behind a token is no longer than the text behind its first character.
  abbrev Shrinks : ℕ → Result Error (Option Token × Text) → Type 0
  Shrinks n (return found) = length found.1 ≤ n
  Shrinks n (raise e) = e ≢ out_of_fuel

  variable_token-Shrinks :
      (n : ℕ) (name rest : Text) → length rest ≤ n → Shrinks n (variable_token name rest)
  variable_token-Shrinks n [] rest h = λ e. cc
  variable_token-Shrinks n (c ∷ name) rest h = h

  quoted_token-Shrinks :
      (n : ℕ) (text rest : Text) → length rest ≤ n → Shrinks n (quoted_token text rest)
  quoted_token-Shrinks n text [] h = λ e. cc
  quoted_token-Shrinks n text (c ∷ rest) h = omega arith

  next_token-Shrinks : (c : ℕ) (s : Text) → Shrinks (length s) (next_token u c s)
  unfolding next_token
  next_token-Shrinks c s = ground (
    arith,
    variable_token-Shrinks (length s) (take_while (is_name_char u) s)
        (drop_while (is_name_char u) s),
    length-drop_while (is_name_char u) s,
    quoted_token-Shrinks (length s) (take_while (λ d. not (d == c)) s)
        (drop_while (λ d. not (d == c)) s),
    length-drop_while (λ d. not (d == c)) s,
    length-drop_while (is_word_char u) s,
  )

  tokens-push :
      (r : Result Error (List Token)) (tok : Option Token)
      → r ≢ raise out_of_fuel
      → (r >>= λ tokens. return (push u tok tokens)) ≢ raise out_of_fuel
  tokens-push (return ts) tok h e = cc
  tokens-push (raise x) tok h e = h e

  tokenize_total : (f : ℕ) (s : Text) → length s ≤ f → tokenize u f s ≢ raise out_of_fuel
  unfolding tokenize
  tokenize_total f [] h e = cc
  tokenize_total zero (c ∷ s) h e = absurd (omega arith)
  tokenize_total (suc f) (c ∷ s) h e =
      after (next_token u c s) (next_token-Shrinks c s) (tokenize_total f) e
    where
      after :
          (m : Result Error (Option Token × Text))
          → Shrinks (length s) m
          → ((t : Text) → length t ≤ f → tokenize u f t ≢ raise out_of_fuel)
          → (m >>= λ found. tokenize u f found.1 >>= λ tokens. return (push u found.0 tokens))
            ≢ raise out_of_fuel
      after (return found) short ih e' =
          tokens-push (tokenize u f found.1) found.0 (ih found.1 (omega arith)) e'
      after (raise x) short ih e' = short (cc)

-- Whatever the text of a condition, its evaluation returns a value or raises an error of the
-- program: the fuel of the tokenizer and that of the parser are enough.
pub evaluate_condition_total :
    (u : Unicode) (env_lookup : Text → Option Text) (condition : Text)
    → evaluate_condition u env_lookup condition ≢ raise out_of_fuel
unfolding evaluate_condition tokenize_condition
evaluate_condition_total u env_lookup condition e =
    then_evaluate (tokenize u (length condition) condition)
      (tokenize_total u (length condition) condition (omega arith)) e
  where
    then_evaluate :
        (r : Result Error (List Token))
        → r ≢ raise out_of_fuel
        → (r >>= evaluate_tokens env_lookup) ≢ raise out_of_fuel
    then_evaluate (return ts) h e' = evaluate_tokens_total env_lookup ts e'
    then_evaluate (raise x) h e' = h (cc)
