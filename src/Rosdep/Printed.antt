-- ===== src/Rosdep/Printed.antt =====
-- `_parse_rosdep_resolve` of roscope/rosdep.py against what rosdep prints for several keys.
use roscope.Base.{
  Text, chars, Bool, true, false, ◌||◌, List, [], ◌∷◌, ◌++◌, none, some, ◌≡◌, refl, ◌∙◌, ap, arith,
  inl, inr, Bool-cases, if◌then◌else◌, text_eq, text_eq_iff, contains_text, starts_with, ends_with,
  rstrip_snoc, rstrip-eq_self, splitlines, split_words, Unicode, All, append_assoc, append-nil,
  ◌==◌,
}
use roscope.Rosdep.{
  ResolvedDeps, is_supported_installer, key_header, add_unresolved, collect_packages, comment_text,
  Several, flush, header_key, several_lines, add_unseen, no_several, parse_several, parse_lines,
  parse_rosdep_resolve,
}

-- What rosdep prints for one key: the installer, and a line with the packages.
pub record Entry : Type 0 where
  pub key : Text
  pub installer : Text
  pub line : Text

abbrev pub printed : List Entry → List Text
printed [] = []
printed (e ∷ entries) =
    (key_header ++ (e.key ++ b']' ∷ [])) ∷ (b'#' ∷ e.installer) ∷ e.line ∷ printed entries

-- The key does not end in a bracket, and the other two lines are not read as headers.
abbrev pub IsPrintable : Entry → Type 0
IsPrintable e =
    (ends_with b']' e.key ≡ false)
    × (starts_with key_header (b'#' ∷ e.installer) ≡ false)
    × (comment_text e.line ≡ none)

module _ (u : Unicode) where
  -- The packages of the entries with an installer.
  abbrev pub packages_of : Text → List Entry → List Text
  packages_of installer [] = []
  packages_of installer (e ∷ entries) =
      (if text_eq e.installer installer then split_words u e.line else [])
      ++ packages_of installer entries

  abbrev pub unsupported : List Entry → List Text
  unsupported [] = []
  unsupported (e ∷ entries) =
      (if is_supported_installer e.installer then [] else e.key ∷ []) ++ unsupported entries

  abbrev pub has_key : Text → List Entry → Bool
  has_key key [] = false
  has_key key (e ∷ entries) = text_eq e.key key || has_key key entries

  abbrev pub not_printed : List Entry → List Text → List Text
  not_printed entries [] = []
  not_printed entries (key ∷ keys) =
      (if has_key key entries then [] else key ∷ []) ++ not_printed entries keys

  -- The state behind an entry.
  abbrev after : Entry → Several → Several
  after e s = record {
    result = collect_packages u e.installer e.line (flush s.current_key s.has_installer s.result);
    seen_keys = e.key ∷ s.seen_keys;
    installer = some e.installer;
    current_key = some e.key;
    has_installer = is_supported_installer e.installer;
  }

  abbrev after_all : List Entry → Several → Several
  after_all [] s = s
  after_all (e ∷ entries) s = after_all entries (after e s)

  header_key-printed :
      (key : Text)
      → ends_with b']' key ≡ false
      → header_key (key_header ++ (key ++ b']' ∷ [])) ≡ key
  header_key-printed key h = rstrip_snoc b']' key ∙ rstrip-eq_self b']' key h

  not_comment : (line : Text) → comment_text line ≡ none → starts_with key_header line ≡ false
  not_comment [] h = refl
  not_comment (c ∷ rest) h = elim (Bool-cases (c == b'#')) [
    | inl hash ↦ absurd (clash (rw hash at h))
    | inr other ↦ rw other refl
  ]
    where
      clash : some rest ≡ none → ⊥
      clash k = cc

  several_lines-entry :
      (e : Entry) (lines : List Text) (s : Several)
      → IsPrintable e
      → several_lines u (printed (e ∷ []) ++ lines) s ≡ several_lines u lines (after e s)
  unfolding several_lines
  several_lines-entry e lines s (key_ok, installer_ok, line_ok) =
      rw (header_key-printed e.key key_ok)
        (rw installer_ok (rw (not_comment e.line line_ok) (rw line_ok refl)))

  several_lines-printed :
      (entries : List Entry) (s : Several)
      → All IsPrintable entries
      → several_lines u (printed entries) s ≡ after_all entries s
  unfolding several_lines
  several_lines-printed [] s ok = refl
  several_lines-printed (e ∷ entries) s ok =
      several_lines-entry e (printed entries) s ok.0
      ∙ several_lines-printed entries (after e s) ok.1

  abbrev finished : Several → ResolvedDeps
  finished s = flush s.current_key s.has_installer s.result

  -- The packages and the unresolved keys of entries, behind those found before.
  abbrev with_entries : List Entry → ResolvedDeps → ResolvedDeps
  with_entries entries result = record {
    apt = result.apt ++ packages_of (chars "apt") entries;
    pip = result.pip ++ packages_of (chars "pip") entries;
    unresolved = result.unresolved ++ unsupported entries;
  }

  abbrev with_entry : Entry → ResolvedDeps → ResolvedDeps
  with_entry e result =
      flush (some e.key) (is_supported_installer e.installer)
        (collect_packages u e.installer e.line result)

  not_pip :
      (installer : Text)
      → text_eq installer (chars "apt") ≡ true
      → text_eq installer (chars "pip") ≡ false
  unfolding text_eq
  not_pip installer h = rw ((text_eq_iff installer (chars "apt")).0 h) refl

  with_entries-cons :
      (e : Entry) (entries : List Entry) (result : ResolvedDeps)
      → with_entries entries (with_entry e result) ≡ with_entries (e ∷ entries) result
  unfolding collect_packages
  with_entries-cons e entries result = elim (Bool-cases (text_eq e.installer (chars "apt"))) [
    | inl apt ↦ rw apt (
        rw (not_pip e.installer apt) (
          rw (append_assoc result.apt (split_words u e.line) (packages_of (chars "apt") entries))
            refl))
    | inr not_apt ↦ rw not_apt (elim (Bool-cases (text_eq e.installer (chars "pip"))) [
      | inl pip ↦ rw pip (
          rw (append_assoc result.pip (split_words u e.line) (packages_of (chars "pip") entries))
            refl)
      | inr not_pip' ↦
          rw not_pip' (rw (append_assoc result.unresolved (e.key ∷ []) (unsupported entries)) refl)
    ])
  ]

  finished-after_all :
      (entries : List Entry) (s : Several)
      → finished (after_all entries s) ≡ with_entries entries (finished s)
  finished-after_all [] s =
      rw (append-nil (finished s).apt)
        (rw (append-nil (finished s).pip) (rw (append-nil (finished s).unresolved) refl))
  finished-after_all (e ∷ entries) s =
      finished-after_all entries (after e s) ∙ with_entries-cons e entries (finished s)

  contains_text-after_all :
      (key : Text) (entries : List Entry) (s : Several)
      → contains_text (after_all entries s).seen_keys key
        ≡ (has_key key entries || contains_text s.seen_keys key)
  unfolding contains_text
  contains_text-after_all key [] s = refl
  contains_text-after_all key (e ∷ entries) s =
      contains_text-after_all key entries (after e s)
      ∙ or_swap (has_key key entries) (text_eq e.key key) (contains_text s.seen_keys key)
    where
      or_swap : (a b c : Bool) → (a || (b || c)) ≡ ((b || a) || c)
      or_swap a b c = ground arith

  add_unseen-printed :
      (entries : List Entry) (seen : List Text) (keys : List Text) (result : ResolvedDeps)
      → ((key : Text) → contains_text seen key ≡ has_key key entries)
      → add_unseen seen keys result
        ≡ record result { unresolved = result.unresolved ++ not_printed entries keys }
  add_unseen-printed entries seen [] result h = rw (append-nil result.unresolved) refl
  add_unseen-printed entries seen (key ∷ keys) result h =
      rw (h key) (add_unseen-printed entries seen keys _ h ∙ by_test (has_key key entries))
    where
      by_test :
          (b : Bool)
          → ◌≡◌ {A = ResolvedDeps}
              (record (if b then result else add_unresolved key result) {
                unresolved =
                    (if b then result else add_unresolved key result).unresolved
                    ++ not_printed entries keys;
              })
              (record result {
                unresolved =
                    result.unresolved ++ ((if b then [] else key ∷ []) ++ not_printed entries keys);
              })
      by_test true = refl
      by_test false = rw (append_assoc result.unresolved (key ∷ []) (not_printed entries keys)) refl

  not_printed-nil : (keys : List Text) → not_printed [] keys ≡ keys
  not_printed-nil [] = refl
  not_printed-nil (key ∷ keys) = ap (λ l. key ∷ l) (not_printed-nil keys)

  -- What the entries and the keys that were asked for amount to.
  abbrev pub printed_deps : List Entry → List Text → ResolvedDeps
  printed_deps entries keys = record {
    apt = packages_of (chars "apt") entries;
    pip = packages_of (chars "pip") entries;
    unresolved = unsupported entries ++ not_printed entries keys;
  }

  parse_several-printed :
      (entries : List Entry) (keys : List Text)
      → All IsPrintable entries
      → parse_several u (printed entries) keys ≡ printed_deps entries keys
  unfolding contains_text
  parse_several-printed entries keys ok = rw (several_lines-printed entries no_several ok) (
      add_unseen-printed entries (after_all entries no_several).seen_keys keys _
        (λ key. contains_text-after_all key entries no_several ∙ or_false (has_key key entries))
      ∙ rw (finished-after_all entries no_several) refl)
    where
      or_false : (b : Bool) → (b || false) ≡ b
      or_false b = ground arith

  parse_lines-printed :
      (entries : List Entry) (keys : List Text)
      → All IsPrintable entries
      → parse_lines u (printed entries) keys ≡ printed_deps entries keys
  parse_lines-printed [] keys ok = rw (not_printed-nil keys) refl
  parse_lines-printed (e ∷ entries) [] ok = parse_several-printed (e ∷ entries) [] ok
  parse_lines-printed (e ∷ entries) (key ∷ []) ok =
      parse_several-printed (e ∷ entries) (key ∷ []) ok
  parse_lines-printed (e ∷ entries) (key ∷ next ∷ keys) ok =
      parse_several-printed (e ∷ entries) (key ∷ next ∷ keys) ok

  -- An output that has a header, an installer and a line of packages for each key, where no key ends in
  -- a bracket and no other line is read as a header, is read back: the apt and the pip packages in the
  -- order of the output, and as unresolved first the keys with another installer and then the keys asked
  -- for that the output does not have.
  pub parse_rosdep_resolve-printed :
      (stdout : Text) (entries : List Entry) (keys : List Text)
      → splitlines stdout ≡ printed entries
      → All IsPrintable entries
      → parse_rosdep_resolve u stdout keys ≡ printed_deps entries keys
  unfolding parse_rosdep_resolve
  parse_rosdep_resolve-printed stdout entries keys lines ok =
      ap (λ l. parse_lines u l keys) lines ∙ parse_lines-printed entries keys ok
