-- ===== src/Condition/Sound.antt =====
-- The results of `_ConditionParser` of roscope/indexer.py, against the grammar.
use roscope.Base.{
  ℕ, zero, suc, ◌≡◌, ◌⊎◌, ◌↔◌, inl, inr, refl, ap, sym, subst, ◌∙◌, Text, Bool, true, ◌&&◌, ◌||◌,
  Option, List, [], ◌∷◌, Result, return, ◌>>=◌, arith, length, >>=-eq-return,
}
use mathlib.Core.Logic.{⊎_elim}
use roscope.Condition.{evaluate_tokens, finish}
use roscope.Condition.Lex.{Token, lparen, rparen, and_token, or_token, cmp, var, lit, Error}
use roscope.Condition.Parse.{
  resolve, comparison_rhs, comparison_operator, parse_comparison, close_group, parse_or, or_loop,
  parse_and, and_loop, parse_atom, parse_expr, fuel_for,
}
use roscope.Condition.Grammar.{
  Term, variable, literal, Disjunction, disjunction, no_alternatives, or_else, conjunction,
  no_conditions, and_also, comparison, group, write_or, write_alternatives, write_and,
  write_conditions, write_atom, value_or, value_alternatives, value_and, value_conditions,
  value_atom, term_token, term_value,
}
use roscope.Condition.Complete.{or_complete, length-write_or}

module _ (env_lookup : Text → Option Text) where
  -- An expression that the tokens `ts` begin with, its value, and the tokens behind it.
  abbrev Reads :
      {A : Type 0}
      → (A → List Token → List Token)
      → (A → Bool)
      → List Token
      → Bool × List Token
      → Type 0
  Reads {A} write value ts r = (e : A) × (ts ≡ write e r.1) × (value e ≡ r.0)

  resolve_sound :
      (tok : Token) (x : Text)
      → resolve env_lookup tok ≡ return x
      → (t : Term) × (tok ≡ term_token t) × (term_value env_lookup t ≡ x)
  unfolding resolve
  resolve_sound (var n) x e = (variable n, refl, ground arith)
  resolve_sound (lit n) x e = (literal n, refl, ground arith)
  resolve_sound _ x e = cc

  comparison_sound :
      (ts : List Token) (r : Bool × List Token)
      → parse_comparison env_lookup ts ≡ return r
      → Reads write_atom (value_atom env_lookup) ts r
  unfolding parse_comparison write_atom value_atom comparison_operator comparison_rhs
  comparison_sound [] r e = cc
  comparison_sound (t ∷ []) r e =
      let (x, ex, e1) = >>=-eq-return (resolve env_lookup t) _ e in absurd (cc)
  comparison_sound (t ∷ cmp op ∷ []) r e =
      let (x, ex, e1) = >>=-eq-return (resolve env_lookup t) _ e in absurd (cc)
  comparison_sound (t ∷ cmp op ∷ t' ∷ ts) r e =
      let (x, ex, e1) = >>=-eq-return (resolve env_lookup t) _ e in
      let (y, ey, e2) = >>=-eq-return (resolve env_lookup t') _ e1 in
      let (l, el, vl) = resolve_sound t x ex in
      let (m, em, vm) = resolve_sound t' y ey in (comparison l op m, ground arith, ground arith)
  comparison_sound (t ∷ u ∷ ts) r e =
      let (x, ex, e1) = >>=-eq-return (resolve env_lookup t) _ e in absurd (cc)

  close_group-eq_return :
      (d r : Bool × List Token)
      → close_group env_lookup d ≡ return r
      → (d.1 ≡ rparen ∷ r.1) × (d.0 ≡ r.0)
  unfolding close_group
  close_group-eq_return d r e = ground arith

  mutual
    unfolding parse_or or_loop parse_and and_loop parse_atom close_group write_or value_or

    or_sound :
        (f : ℕ) (ts : List Token) (r : Bool × List Token)
        → parse_or env_lookup f ts ≡ return r
        → Reads write_or (value_or env_lookup) ts r
    or_sound zero ts r e = cc
    or_sound (suc f) ts r e =
        let (first, e1, e2) =
          >>=-eq-return (parse_and env_lookup f ts) (λ first. or_loop env_lookup f first.0 first.1)
            e in
        let (c, ec, vc) = and_sound f ts first e1 in
        let (a, ea, va) = or_loop_sound f first.0 first.1 r e2 in
        (
          disjunction c a,
          ec ∙ ap (write_and c) ea,
          ap (λ (v : Bool). v || value_alternatives env_lookup a) vc ∙ va,
        )

    or_loop_sound :
        (f : ℕ) (b : Bool) (ts : List Token) (r : Bool × List Token)
        → or_loop env_lookup f b ts ≡ return r
        → Reads write_alternatives (λ a. b || value_alternatives env_lookup a) ts r
    or_loop_sound zero b ts r e = cc
    or_loop_sound (suc f) b (or_token ∷ ts) r e =
        let (rhs, e1, e2) =
          >>=-eq-return (parse_and env_lookup f ts) (λ rhs. or_loop env_lookup f (b || rhs.0) rhs.1)
            e in
        let (c, ec, vc) = and_sound f ts rhs e1 in
        let (a, ea, va) = or_loop_sound f (b || rhs.0) rhs.1 r e2 in
        (
          or_else c a,
          ap (λ (l : List Token). or_token ∷ l) (ec ∙ ap (write_and c) ea),
          ground arith,
        )
    or_loop_sound (suc f) b ts r e = (no_alternatives, ground arith, ground arith)

    and_sound :
        (f : ℕ) (ts : List Token) (r : Bool × List Token)
        → parse_and env_lookup f ts ≡ return r
        → Reads write_and (value_and env_lookup) ts r
    and_sound zero ts r e = cc
    and_sound (suc f) ts r e =
        let (first, e1, e2) =
          >>=-eq-return (parse_atom env_lookup f ts)
            (λ first. and_loop env_lookup f first.0 first.1) e in
        let (c, ec, vc) = atom_sound f ts first e1 in
        let (a, ea, va) = and_loop_sound f first.0 first.1 r e2 in
        (
          conjunction c a,
          ec ∙ ap (write_atom c) ea,
          ap (λ (v : Bool). v && value_conditions env_lookup a) vc ∙ va,
        )

    and_loop_sound :
        (f : ℕ) (b : Bool) (ts : List Token) (r : Bool × List Token)
        → and_loop env_lookup f b ts ≡ return r
        → Reads write_conditions (λ a. b && value_conditions env_lookup a) ts r
    and_loop_sound zero b ts r e = cc
    and_loop_sound (suc f) b (and_token ∷ ts) r e =
        let (rhs, e1, e2) =
          >>=-eq-return (parse_atom env_lookup f ts)
            (λ rhs. and_loop env_lookup f (b && rhs.0) rhs.1) e in
        let (c, ec, vc) = atom_sound f ts rhs e1 in
        let (a, ea, va) = and_loop_sound f (b && rhs.0) rhs.1 r e2 in
        (
          and_also c a,
          ap (λ (l : List Token). and_token ∷ l) (ec ∙ ap (write_atom c) ea),
          ground arith,
        )
    and_loop_sound (suc f) b ts r e = (no_conditions, ground arith, ground arith)

    atom_sound :
        (f : ℕ) (ts : List Token) (r : Bool × List Token)
        → parse_atom env_lookup f ts ≡ return r
        → Reads write_atom (value_atom env_lookup) ts r
    atom_sound zero ts r e = cc
    atom_sound (suc f) (lparen ∷ ts) r e =
        let (d, e1, e2) = >>=-eq-return (parse_or env_lookup f ts) (close_group env_lookup) e in
        let (g, eg, vg) = or_sound f ts d e1 in
        let (closed, same) = close_group-eq_return d r e2 in
        (group g, ap (λ (l : List Token). lparen ∷ l) (eg ∙ ap (write_or g) closed), vg ∙ same)
    atom_sound (suc f) ts r e = comparison_sound ts r e

  finish-eq_return :
      (m : Result Error (Bool × List Token)) (b : Bool)
      → (m >>= finish) ≡ return b
      → m ≡ return (b, [])
  finish-eq_return m b e = ground arith

  pub evaluate_tokens-written :
      (ts : List Token) (d : Disjunction)
      → ts ≡ write_or d []
      → evaluate_tokens env_lookup ts ≡ return (value_or env_lookup d)
  unfolding evaluate_tokens parse_expr
  evaluate_tokens-written [] d e = absurd (omega (arith, length-write_or d [], ap length e))
  evaluate_tokens-written (t ∷ ts) d e =
      let fuel = fuel_for (t ∷ ts) in
      let read =
        subst (λ (l : List Token). parse_or env_lookup fuel l ≡ return (value_or env_lookup d, []))
          (sym e) (or_complete env_lookup d fuel [] (omega (arith, ap length e)) tt tt) in
      rw read

  -- The evaluator returns `b` exactly for no tokens, where `b` is true, and for the tokens of an
  -- expression of the grammar whose value is `b`; for all other tokens it raises.
  pub evaluate_tokens_iff :
      (ts : List Token) (b : Bool)
      → (evaluate_tokens env_lookup ts ≡ return b) ↔ (
          ((ts ≡ []) × (b ≡ true))
          ⊎ ((d : Disjunction) × (ts ≡ write_or d []) × (value_or env_lookup d ≡ b)))
  unfolding evaluate_tokens parse_expr
  evaluate_tokens_iff [] b = (
    λ e. inl (refl, ground arith),
    ⊎_elim (λ h. ground arith)
        (λ (d, e, v). absurd (omega (arith, length-write_or d [], ap length e))),
  )
  evaluate_tokens_iff (t ∷ ts) b = (
    λ e. inr (
        or_sound (fuel_for (t ∷ ts)) (t ∷ ts) (b, [])
          (finish-eq_return (parse_or env_lookup (fuel_for (t ∷ ts)) (t ∷ ts)) b e)),
    ⊎_elim (λ h. absurd (cc (h.0)))
        (λ (d, e, v). evaluate_tokens-written (t ∷ ts) d e ∙ ap (λ (x : Bool). return x) v),
  )
