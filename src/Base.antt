-- ===== src/Base.antt =====
-- The names that the other modules share: those of the libraries, passed on, and the children's.
mod Tests
mod Lists
mod Texts
mod Dicts
mod Results
mod Letters
pub mod Stateful
mod Sorting
mod Counting
pub use Tests.*
pub use Lists.*
unfoldable pub use Texts.{text_eq, text_lt, contains_text}
unfoldable pub use Texts.{rstrip}
pub use Texts.{
  Text, chars, text_eq_iff, text_eq_refl, text_eq_comm, starts_with, drop_while, TextMem,
  contains_text_iff, text_eq-false, ends_with, ends_with-rstrip, rstrip-eq_self, rstrip_idem,
  rstrip-append, rstrip_snoc,
}
unfoldable pub use Dicts.{lookup, insert, remove, keys}
pub use Dicts.{
  Dict, is_some, HasUniqueKeys, insert-HasUniqueKeys, dict_laws, lookup-insert, lookup-remove,
  lookup-mem, mem-lookup, contains_text-keys-insert,
}
pub use Results.*
pub use Letters.{Unicode, to_lower, take_while}
unfoldable pub use Letters.{is_space, is_alnum, strip, splitlines, split_words, split_on}
unfoldable pub use Sorting.{sorted, gather}
unfoldable pub use Counting.{occurrences}
pub use Counting.{
  bit, AllDistinct, AllDistinct-occurrences, occurrences-append, occurrences-sorted,
  contains_text-occurrences,
}
pub use Sorting.{sorted-perm, append_swap, gather-sorted}
pub use Prim.Native.Nat.{ℕ, zero, suc, ◌+◌, ◌-◌, ◌*◌, ◌≤◌, ◌<◌}
pub use Prim.Native.String.{String}
pub use mathlib.Core.Path.{◌≡◌, refl, sym, ap, ◌∙◌, subst, ◌≡⟨◌⟩◌, ◌∎}
pub use mathlib.Core.Logic.{◌≢◌, ◌↔◌, ◌⊎◌, inl, inr}
pub use mathlib.Core.Bool.{Bool, true, false, not, ◌&&◌, ◌||◌}
pub use mathlib.Core.Option.{Option, none, some}
pub use mathlib.Core.List.{List, [], ◌∷◌, ◌++◌, map, Perm, append_assoc, append-nil}
pub use native.Mathlib.Omega.{arith}
