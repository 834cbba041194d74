-- ===== src/Rosdep.antt =====
-- rosdep in roscope/rosdep.py: the output of `rosdep resolve` read here, and in `Install` the calls
-- of rosdep and of the installers.
pub mod Install
pub mod Remembered
pub mod Printed
mod Tests
use roscope.Base.{
  ℕ, Text, Dict, chars, Bool, true, false, not, ◌&&◌, ◌||◌, List, [], ◌∷◌, ◌++◌, Option, none, some,
  if◌then◌else◌, text_eq, contains_text, starts_with, split_words, splitlines, rstrip, Unicode,
  length, ◌==◌,
}

pub record ResolvedDeps : Type 0 where
  pub apt : List Text
  pub pip : List Text
  pub unresolved : List Text

abbrev pub no_deps : ResolvedDeps
no_deps = record { apt = []; pip = []; unresolved = [] }

abbrev pub is_supported_installer : Text → Bool
is_supported_installer installer =
    text_eq installer (chars "apt") || text_eq installer (chars "pip")

-- The text behind a number of characters: `line[n:]`
abbrev pub drop_text : Text → Text → Text
drop_text [] s = s
drop_text (p ∷ ps) [] = []
drop_text (p ∷ ps) (c ∷ s) = drop_text ps s

abbrev pub key_header : Text
key_header = chars "#ROSDEP["

-- `key not in names` is appended, and else nothing.
abbrev pub add_unresolved : Text → ResolvedDeps → ResolvedDeps
add_unresolved key result = record result { unresolved = result.unresolved ++ key ∷ [] }

-- `line[1:]` of a line that starts with `#`
abbrev pub comment_text : Text → Option Text
comment_text [] = none
comment_text (c ∷ rest) = if c == b'#' then some rest else none

-- The variables of the loop over the lines of one key.
pub record Single : Type 0 where
  pub result : ResolvedDeps
  pub installer : Option Text
  pub has_supported : Bool

abbrev pub finish_single : Text → Single → ResolvedDeps
finish_single key s = if s.has_supported then s.result else add_unresolved key s.result

-- The variables of the loop over the lines with key headers.
pub record Several : Type 0 where
  pub result : ResolvedDeps
  pub seen_keys : List Text
  pub installer : Option Text
  pub current_key : Option Text
  pub has_installer : Bool

-- A key without a supported installer is unresolved.
abbrev pub flush : Option Text → Bool → ResolvedDeps → ResolvedDeps
flush none has_installer result = result
flush (some key) has_installer result = if has_installer then result else add_unresolved key result

abbrev pub begin_key : Text → Several → Several
begin_key key s = record {
  result = flush s.current_key s.has_installer s.result;
  seen_keys = key ∷ s.seen_keys;
  installer = none;
  current_key = some key;
  has_installer = false;
}

-- `line[len("#ROSDEP["):].rstrip("]")`
abbrev pub header_key : Text → Text
header_key line = rstrip b']' (drop_text key_header line)

abbrev pub add_unseen : List Text → List Text → ResolvedDeps → ResolvedDeps
add_unseen seen_keys [] result = result
add_unseen seen_keys (key ∷ keys) result =
    add_unseen seen_keys keys
      (if contains_text seen_keys key then result else add_unresolved key result)

abbrev pub finish_several : List Text → Several → ResolvedDeps
finish_several keys s = add_unseen s.seen_keys keys (flush s.current_key s.has_installer s.result)

abbrev pub no_single : Single
no_single = record { result = no_deps; installer = none; has_supported = false }

abbrev pub no_several : Several
no_several = record {
  result = no_deps;
  seen_keys = [];
  installer = none;
  current_key = none;
  has_installer = false;
}

module _ (u : Unicode) where
  unfoldable pub collect_packages : Text → Text → ResolvedDeps → ResolvedDeps
  unfolding split_words
  collect_packages installer packages_line result =
      if text_eq installer (chars "apt")
      then record result { apt = result.apt ++ split_words u packages_line }
      else if text_eq installer (chars "pip")
      then record result { pip = result.pip ++ split_words u packages_line }
      else result

  abbrev pub collect_for : Option Text → Text → ResolvedDeps → ResolvedDeps
  collect_for none line result = result
  collect_for (some installer) line result = collect_packages installer line result

  abbrev pub single_found : Text → Option Text → Single → Single
  single_found line none s = record s { result = collect_for s.installer line s.result }
  single_found line (some name) s = record s {
    installer = some name;
    has_supported = s.has_supported || is_supported_installer name;
  }

  unfoldable pub single_lines : List Text → Single → Single
  unfolding collect_packages
  single_lines [] s = s
  single_lines (line ∷ lines) s = single_lines lines (single_found line (comment_text line) s)

  abbrev pub several_found : Text → Option Text → Several → Several
  several_found line none s = record s { result = collect_for s.installer line s.result }
  several_found line (some name) s = record s {
    installer = some name;
    has_installer = s.has_installer || is_supported_installer name;
  }

  abbrev pub several_line : Text → Several → Several
  several_line line s =
      if starts_with key_header line
      then begin_key (header_key line) s
      else several_found line (comment_text line) s

  unfoldable pub several_lines : List Text → Several → Several
  unfolding collect_packages
  several_lines [] s = s
  several_lines (line ∷ lines) s = several_lines lines (several_line line s)

  abbrev pub parse_several : List Text → List Text → ResolvedDeps
  parse_several lines keys = finish_several keys (several_lines lines no_several)

  abbrev pub parse_lines : List Text → List Text → ResolvedDeps
  parse_lines [] keys = record no_deps { unresolved = keys }
  parse_lines (line ∷ lines) (key ∷ []) =
      if starts_with key_header line
      then parse_several (line ∷ lines) (key ∷ [])
      else finish_single key (single_lines (line ∷ lines) no_single)
  parse_lines (line ∷ lines) keys = parse_several (line ∷ lines) keys

  unfoldable pub parse_rosdep_resolve : Text → List Text → ResolvedDeps
  unfolding splitlines single_lines several_lines
  parse_rosdep_resolve stdout keys = parse_lines (splitlines stdout) keys
