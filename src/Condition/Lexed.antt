-- ===== src/Condition/Lexed.antt =====
-- `_tokenize_condition` of roscope/indexer.py on tokens that are written out.
use roscope.Base.{
  text_eq_comm, ap, ◌∙◌, inl, inr, Bool-cases, ==_iff, is_space, contains_text, take_while, Unicode,
  ℕ, zero, suc, ◌≤◌, ◌≡◌, refl, Text, chars, Bool, true, false, not, Option, none, some, List, [],
  ◌∷◌, ◌++◌, return, arith, length, length-append, ◌==◌, all, drop_while, append_assoc, text_eq,
  sym,
}
use roscope.Condition.{evaluate_condition}
use roscope.Condition.Lex.{
  Comparison, eq, ne, lt, le, gt, ge, Token, lparen, rparen, and_token, or_token, cmp, var, lit,
  tokenize, tokenize_condition, next_token, is_name_char, is_word_char, word_token, starts_operator,
}
use roscope.Condition.Grammar.{Disjunction, write_or, value_or}
use roscope.Condition.Sound.{evaluate_tokens-written}

abbrev pub operator_text : Comparison → Text
operator_text eq = chars "=="
operator_text ne = chars "!="
operator_text lt = chars "<"
operator_text le = chars "<="
operator_text gt = chars ">"
operator_text ge = chars ">="

-- The texts with a space behind each.
pub spaced : List Text → Text
spaced [] = []
spaced (word ∷ words) = word ++ (b' ' ∷ spaced words)

take_while-append :
    (p : ℕ → Bool) (s : Text) (c : ℕ) (rest : Text)
    → all p s ≡ true
    → p c ≡ false
    → (take_while p (s ++ c ∷ rest) ≡ s) × (drop_while p (s ++ c ∷ rest) ≡ c ∷ rest)
take_while-append p [] c rest h k = (rw k, rw k)
take_while-append p (x ∷ s) c rest h k = ground (arith, take_while-append p s c rest)

module _ (u : Unicode) where
  -- How a token can be written. A variable has a name, of name characters. A literal stands between
  -- quotes of one of two kinds that it has not inside, or is a bare word of word characters, but not
  -- `and` or `or`. (Unicode has no space that is alphanumeric.)
  pub data Spells : Token → Text → Type 0 where
    opening : Spells lparen (chars "(")
    closing : Spells rparen (chars ")")
    and_word : Spells and_token (chars "and")
    or_word : Spells or_token (chars "or")
    operator : (op : Comparison) → Spells (cmp op) (operator_text op)
    variable :
        (c : ℕ) (name : Text)
        → all (is_name_char u) (c ∷ name) ≡ true
        → Spells (var (c ∷ name)) (b'$' ∷ c ∷ name)
    double_quoted :
        (text : Text)
        → all (λ d. not (d == b'"')) text ≡ true
        → Spells (lit text) (b'"' ∷ (text ++ b'"' ∷ []))
    single_quoted :
        (text : Text)
        → all (λ d. not (d == b'\'')) text ≡ true
        → Spells (lit text) (b'\'' ∷ (text ++ b'\'' ∷ []))
    bare :
        (c : ℕ) (word : Text)
        → all (is_word_char u) (c ∷ word) ≡ true
        → is_space u c ≡ false
        → contains_text (chars "and" ∷ chars "or" ∷ []) (c ∷ word) ≡ false
        → Spells (lit (c ∷ word)) (c ∷ word)

  abbrev pub AreSpelled : List Token → List Text → Type 0
  AreSpelled [] [] = Unit
  AreSpelled [] (word ∷ words) = ⊥
  AreSpelled (tok ∷ ts) [] = ⊥
  AreSpelled (tok ∷ ts) (word ∷ words) = Spells tok word × AreSpelled ts words

  -- One round at the first character of a token that a space ends.
  abbrev Leads : Text → Token → Text → Type 0
  Leads [] tok rest = ⊥
  Leads (c ∷ s) tok rest = next_token u c (s ++ (b' ' ∷ rest)) ≡ return (some tok, b' ' ∷ rest)

  space_ends_name : is_name_char u b' ' ≡ false
  unfolding is_name_char
  space_ends_name = refl

  operator-Leads : (op : Comparison) (rest : Text) → Leads (operator_text op) (cmp op) rest
  unfolding next_token
  operator-Leads eq rest = refl
  operator-Leads ne rest = refl
  operator-Leads lt rest = refl
  operator-Leads le rest = refl
  operator-Leads gt rest = refl
  operator-Leads ge rest = refl

  variable_at :
      (s : Text) (c : ℕ) (name rest : Text)
      → take_while (is_name_char u) s ≡ c ∷ name
      → drop_while (is_name_char u) s ≡ rest
      → next_token u b'$' s ≡ return (some (var (c ∷ name)), rest)
  unfolding next_token
  variable_at [] c name rest taken left = cc
  variable_at (x ∷ s) c name rest taken left = ground arith

  double_quoted_at :
      (s text : Text) (quote : ℕ) (rest : Text)
      → take_while (λ d. not (d == b'"')) s ≡ text
      → drop_while (λ d. not (d == b'"')) s ≡ quote ∷ rest
      → next_token u b'"' s ≡ return (some (lit text), rest)
  unfolding next_token
  double_quoted_at [] text quote rest taken left = cc
  double_quoted_at (x ∷ s) text quote rest taken left = ground arith

  single_quoted_at :
      (s text : Text) (quote : ℕ) (rest : Text)
      → take_while (λ d. not (d == b'\'')) s ≡ text
      → drop_while (λ d. not (d == b'\'')) s ≡ quote ∷ rest
      → next_token u b'\'' s ≡ return (some (lit text), rest)
  unfolding next_token
  single_quoted_at [] text quote rest taken left = cc
  single_quoted_at (x ∷ s) text quote rest taken left = ground arith

  -- A word character is none of the characters that the tokenizer tests for before.
  word_char_other :
      (c d : ℕ) → is_word_char u d ≡ false → is_word_char u c ≡ true → (c == d) ≡ false
  word_char_other c d h k = elim (Bool-cases (c == d)) [
    | inl same ↦ absurd (clash (sym k ∙ (ap (is_word_char u) ((==_iff c d).0 same) ∙ h)))
    | inr other ↦ other
  ]
    where
      clash : true ≡ false → ⊥
      clash e = cc

  word_char-starts_operator :
      (c : ℕ) (s : Text) → is_word_char u c ≡ true → starts_operator c s ≡ none
  unfolding is_word_char
  word_char-starts_operator c [] k = refl
  word_char-starts_operator c (d ∷ s) k = ground (
    arith,
    word_char_other c b'=' refl k,
    word_char_other c b'!' refl k,
    word_char_other c b'<' refl k,
    word_char_other c b'>' refl k,
  )

  bare_at :
      (c : ℕ) (s word rest : Text)
      → is_word_char u c ≡ true
      → is_space u c ≡ false
      → take_while (is_word_char u) s ≡ word
      → drop_while (is_word_char u) s ≡ rest
      → next_token u c s ≡ return (some (word_token (c ∷ word)), rest)
  unfolding next_token is_word_char
  bare_at c s word rest k not_space taken left = rw (not_space) (
      rw (word_char_other c b'(' refl k) (
        rw (word_char_other c b')' refl k) (
          rw (word_char-starts_operator c s k) (
            rw (word_char_other c b'<' refl k) (
              rw (word_char_other c b'>' refl k) (
                rw (word_char_other c b'$' refl k) (
                  rw (word_char_other c b'"' refl k) (
                    rw (word_char_other c b'\'' refl k)
                      (rw (k) (rw (taken) (rw (left) refl)))))))))))

  bare_word :
      (word : Text)
      → contains_text (chars "and" ∷ chars "or" ∷ []) word ≡ false
      → word_token word ≡ lit word
  unfolding word_token contains_text
  bare_word word h = ground (arith, text_eq_comm word (chars "and"), text_eq_comm word (chars "or"))

  space_ends_word : is_word_char u b' ' ≡ false
  unfolding is_word_char
  space_ends_word = refl

  -- A text in quotes, and what stands behind it.
  quoted-append :
      (quote : ℕ) (text rest : Text)
      → all (λ d. not (d == quote)) text ≡ true
      → not (quote == quote) ≡ false
      → (take_while (λ d. not (d == quote)) ((text ++ quote ∷ []) ++ rest) ≡ text)
        × (drop_while (λ d. not (d == quote)) ((text ++ quote ∷ []) ++ rest) ≡ quote ∷ rest)
  quoted-append quote text rest h k =
      rw (append_assoc text (quote ∷ []) rest)
        (take_while-append (λ d. not (d == quote)) text quote rest h k)

  Spells-Leads : (tok : Token) (word rest : Text) → Spells tok word → Leads word tok rest
  unfolding next_token text_eq
  Spells-Leads tok word rest opening = refl
  Spells-Leads tok word rest closing = refl
  Spells-Leads tok word rest and_word = refl
  Spells-Leads tok word rest or_word = refl
  Spells-Leads tok word rest (operator op) = operator-Leads op rest
  Spells-Leads tok word rest (variable c name h) =
      let (taken, left) =
        take_while-append (is_name_char u) (c ∷ name) b' ' rest h space_ends_name in
      variable_at ((c ∷ name) ++ (b' ' ∷ rest)) c name (b' ' ∷ rest) taken left
  Spells-Leads tok word rest (double_quoted text h) =
      let (taken, left) = quoted-append b'"' text (b' ' ∷ rest) h refl in
      double_quoted_at ((text ++ b'"' ∷ []) ++ (b' ' ∷ rest)) text b'"' (b' ' ∷ rest) taken left
  Spells-Leads tok word rest (single_quoted text h) =
      let (taken, left) = quoted-append b'\'' text (b' ' ∷ rest) h refl in
      single_quoted_at ((text ++ b'\'' ∷ []) ++ (b' ' ∷ rest)) text b'\'' (b' ' ∷ rest) taken left
  Spells-Leads tok word' rest (bare c word h not_space other) =
      let both = all-cons c word h in
      let (taken, left) =
        take_while-append (is_word_char u) word b' ' rest both.1 space_ends_word in
      bare_at c (word ++ (b' ' ∷ rest)) word (b' ' ∷ rest) both.0 not_space taken left
      ∙ ap (λ t. return (some t, b' ' ∷ rest)) (bare_word (c ∷ word) other)
    where
      all-cons :
          (c : ℕ) (word : Text)
          → all (is_word_char u) (c ∷ word) ≡ true
          → (is_word_char u c ≡ true) × (all (is_word_char u) word ≡ true)
      all-cons c word h = ground arith

  space_round : (s : Text) → next_token u b' ' s ≡ return (none, s)
  unfolding next_token
  space_round s = refl

  -- The fuel that is left when a token of the given text and its space are read.
  tokenize-token :
      (text : Text) (tok : Token) (s : Text) (f : ℕ) (ts : List Token)
      → Leads text tok s
      → length (text ++ (b' ' ∷ s)) ≤ f
      → ((g : ℕ) → length s ≤ g → tokenize u g s ≡ return ts)
      → tokenize u f (text ++ (b' ' ∷ s)) ≡ return (tok ∷ ts)
  unfolding tokenize
  tokenize-token [] tok s f ts lead fuel ih = absurd lead
  tokenize-token (c ∷ text) tok s zero ts lead fuel ih = absurd (omega arith)
  tokenize-token (c ∷ text) tok s (suc zero) ts lead fuel ih =
      absurd (omega (arith, length-append text (b' ' ∷ s)))
  tokenize-token (c ∷ text) tok s (suc (suc f)) ts lead fuel ih =
      rw (lead) (rw (space_round s) (rw (ih f (omega (arith, length-append text (b' ' ∷ s))))))

  spaced-tokens :
      (ts : List Token) (words : List Text) (f : ℕ)
      → AreSpelled ts words
      → length (spaced words) ≤ f
      → tokenize u f (spaced words) ≡ return ts
  unfolding spaced tokenize
  spaced-tokens [] [] f w h = ground arith
  spaced-tokens [] (word ∷ words) f w h = absurd w
  spaced-tokens (tok ∷ ts) [] f w h = absurd w
  spaced-tokens (tok ∷ ts) (word ∷ words) f w h =
      tokenize-token word tok (spaced words) f ts (Spells-Leads tok word (spaced words) w.0) h
        (λ g. spaced-tokens ts words g w.1)

  -- Tokens written out with a space behind each are read back as they were.
  tokenize_condition-spaced :
      (ts : List Token) (words : List Text)
      → AreSpelled ts words
      → tokenize_condition u (spaced words) ≡ return ts
  unfolding tokenize_condition
  tokenize_condition-spaced ts words w =
      spaced-tokens ts words (length (spaced words)) w (omega arith)

  -- A text that spells the tokens of an expression of the grammar, with a space behind each, evaluates
  -- to the value of the expression. A variable is spelled with `$` and its name, which is not empty and
  -- of name characters; a literal in double or single quotes that it does not contain, or bare, if it is
  -- a word of word characters, the first of them no space, other than `and` and `or`.
  pub evaluate_condition-written :
      (env_lookup : Text → Option Text) (d : Disjunction) (words : List Text)
      → AreSpelled (write_or d []) words
      → evaluate_condition u env_lookup (spaced words) ≡ return (value_or env_lookup d)
  unfolding evaluate_condition
  evaluate_condition-written env_lookup d words w =
      rw (tokenize_condition-spaced (write_or d []) words w)
        (evaluate_tokens-written env_lookup (write_or d []) d refl)
