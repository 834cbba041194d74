-- ===== src/Base/Letters.antt =====
-- The classes of characters, and Python's methods on texts that depend on them.
use Prim.Native.Nat.{ℕ, ◌+◌}
use mathlib.Core.Bool.{Bool, false, ◌&&◌, ◌||◌}
use mathlib.Core.List.{List, [], ◌∷◌}
use roscope.Base.Tests.{ltb, leb, ◌==◌, if◌then◌else◌}
use roscope.Base.Texts.{Text, drop_while}

-- `str.isspace` and `str.isalnum` of one character beyond ASCII: tables of the Unicode standard.
pub record Unicode : Type 0 where
  pub wide_space : ℕ → Bool
  pub wide_alnum : ℕ → Bool

abbrev between : ℕ → ℕ → ℕ → Bool
between lo hi c = leb lo c && leb c hi

module _ (u : Unicode) where
  unfoldable pub is_space : ℕ → Bool
  is_space c = if ltb c 128 then between 9 13 c || between 28 31 c || c == b' ' else u.wide_space c

  unfoldable pub is_alnum : ℕ → Bool
  is_alnum c =
      if ltb c 128
      then between b'0' b'9' c || between b'A' b'Z' c || between b'a' b'z' c
      else u.wide_alnum c

abbrev pub to_lower : Text → Text
to_lower [] = []
to_lower (c ∷ s) = (if leb b'A' c && leb c b'Z' then c + 32 else c) ∷ to_lower s

abbrev strip_end : (ℕ → Bool) → Text → Text
strip_end p [] = []
strip_end p (c ∷ s) = elim (strip_end p s) [ [] ↦ if p c then [] else c ∷ [] | d ∷ r ↦ c ∷ d ∷ r ]

-- `s.strip()`
unfoldable pub strip : Unicode → Text → Text
unfolding is_space
strip u s = strip_end (is_space u) (drop_while (is_space u) s)

abbrev pub take_while : (ℕ → Bool) → Text → Text
take_while p [] = []
take_while p (c ∷ s) = if p c then c ∷ take_while p s else []

-- The characters that end a line for `str.splitlines`.
abbrev pub is_break : ℕ → Bool
is_break c = between 10 13 c || between 28 30 c || c == 133 || c == 8232 || c == 8233

abbrev add_to_first : ℕ → List Text → List Text
add_to_first c [] = (c ∷ []) ∷ []
add_to_first c (line ∷ lines) = (c ∷ line) ∷ lines

-- Whether the text goes on with the end of a line, of which `\r` is the first half.
abbrev is_half : ℕ → Text → Bool
is_half c [] = false
is_half c (d ∷ s) = c == 13 && d == 10

-- `s.splitlines()`: a line end at the end of the text begins no line.
unfoldable pub splitlines : Text → List Text
splitlines [] = []
splitlines (c ∷ s) =
    let rest = splitlines s in
    if is_half c s then rest else if is_break c then [] ∷ rest else add_to_first c rest

abbrev add_word : Text → List Text → List Text
add_word [] words = words
add_word (c ∷ word) words = (c ∷ word) ∷ words

-- The word at the head of a text, and the words behind it.
abbrev pub words_from : (ℕ → Bool) → Text → Text × List Text
words_from p [] = ([], [])
words_from p (c ∷ s) =
    let rest = words_from p s in if p c then ([], add_word rest.0 rest.1) else (c ∷ rest.0, rest.1)

-- `s.split()`
unfoldable pub split_words : Unicode → Text → List Text
unfolding is_space
split_words u s = let found = words_from (is_space u) s in add_word found.0 found.1

-- `s.split(sep)`, of one character
unfoldable pub split_on : ℕ → Text → List Text
split_on sep [] = [] ∷ []
split_on sep (c ∷ s) =
    let rest = split_on sep s in if c == sep then [] ∷ rest else add_to_first c rest
