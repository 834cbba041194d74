-- ===== src/Launch/Branches.antt =====
-- The conditions of actions: `_ParsedCondition` of roscope/entities/parsing.py.
use roscope.Base.{Text, Bool, true, false, some, Result, return, ◌≡◌, ◌⊎◌, chars, strip, to_lower}
use roscope.Launch.Context.{Context}
use roscope.Launch.Substitution.{Platform, Error, coerce_bool}

module _ (p : Platform) where
  -- The expression is performed to a text that is a boolean.
  abbrev pub IsBoolean : Result Error Text → Type 0
  IsBoolean r = (t : Text) × (b : Bool) × (r ≡ return t) × (coerce_bool p.unicode t ≡ some b)

  -- The words for the two booleans, in any case and with spaces around them.
  abbrev pub IsWordFor : Bool → Text → Type 0
  IsWordFor true t =
      let word = to_lower (strip p.unicode t) in (word ≡ chars "true") ⊎ (word ≡ chars "1")
  IsWordFor false t =
      let word = to_lower (strip p.unicode t) in (word ≡ chars "false") ⊎ (word ≡ chars "0")

  -- The expression is performed to a word for the boolean.
  abbrev pub Says : Bool → Result Error Text → Type 0
  Says b r = (t : Text) × (r ≡ return t) × IsWordFor b t
