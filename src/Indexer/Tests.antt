-- ===== src/Indexer/Tests.antt =====
-- Runs of the dependency search, and the theorems about it at concrete inputs.
use roscope.Base.{
  Text, ◌≡◌, ◌↔◌, refl, true, false, none, some, List, [], ◌∷◌, chars, TextMem, lookup,
  contains_text, text_eq, if◌then◌else◌,
}
use roscope.Indexer.{
  Lockfile, PackageLock, Dependencies, build_only, Disk, read_package_deps, mode_deps,
}
use roscope.Indexer.Closure.{
  Search, resolve_dependencies, search_loop, visit, add_deps, pushed, is_locked,
}
use roscope.Indexer.Removal.{remove_repo, remove_repo-lookup}
use roscope.Base.{
  ℕ, ◌≤◌, ◌<◌, subst, ap, bit, occurrences, AllDistinct-occurrences, sorted, text_lt, insert, inl,
  inr, Bool-cases, text_eq_iff, arith,
}
use roscope.Indexer.Order.{
  compute_build_order, deps_of, add_all, add_edges, add_edge, change, all_zero, kahn_loop, release,
  pop_last, free_packages, add_rest,
}
use roscope.Indexer.Order.Left.{IsOrdered}
use roscope.Indexer.Order.Correct.{IsRank, compute_build_order-once, compute_build_order-IsOrdered}
use roscope.Indexer.{RepoLock}
use roscope.Indexer.Reached.{Needed, is_unread, resolve_dependencies_finds}

abbrev pub only_build : List Text → Dependencies
only_build names = record {
  build = names;
  build_export = [];
  buildtool = [];
  buildtool_export = [];
  exec = [];
  test = [];
}

abbrev pub entry : Text → Text × PackageLock
entry name = (name, record { repo = chars "r"; path = name })

-- `a` needs `b` and the system package `s`, `b` needs `a`, and `c` has no readable package.xml.
abbrev pub sample_lock : Lockfile
sample_lock = record {
  repositories = [];
  packages = entry (chars "a") ∷ entry (chars "b") ∷ entry (chars "c") ∷ [];
}

abbrev pub sample_disk : Disk
sample_disk name l =
    if text_eq name (chars "a")
    then some (only_build (chars "b" ∷ chars "s" ∷ chars "c" ∷ []))
    else if text_eq name (chars "b")
    then some (only_build (chars "a" ∷ []))
    else none

resolve_sample :
    resolve_dependencies sample_disk sample_lock build_only (chars "a" ∷ [])
    ≡ some (record {
      queue = [];
      visited = chars "b" ∷ chars "s" ∷ chars "c" ∷ chars "a" ∷ [];
      packages = chars "b" ∷ chars "c" ∷ chars "a" ∷ [];
      missing = chars "c" ∷ [];
      external = chars "s" ∷ [];
    })
unfolding resolve_dependencies search_loop visit add_deps read_package_deps mode_deps lookup
    contains_text text_eq pushed
resolve_sample = refl

resolve_dependencies_finds_example :
    (t : Search) × (resolve_dependencies sample_disk sample_lock build_only (chars "a" ∷ [])
      ≡ some t)
    × ((p : Text)
        → TextMem p t.packages ↔ (
            Needed sample_disk sample_lock build_only (chars "a" ∷ []) p
            × (is_locked sample_lock p ≡ true)))
    × ((p : Text)
        → TextMem p t.external ↔ (
            Needed sample_disk sample_lock build_only (chars "a" ∷ []) p
            × (is_locked sample_lock p ≡ false)))
    × ((p : Text)
        → TextMem p t.missing ↔ (
            Needed sample_disk sample_lock build_only (chars "a" ∷ []) p
            × (is_unread sample_disk sample_lock build_only (chars "a" ∷ []) p ≡ true)))
resolve_dependencies_finds_example =
    resolve_dependencies_finds sample_disk sample_lock build_only (chars "a" ∷ [])

abbrev repo_r : RepoLock
repo_r = record {
  url = chars "https://example.org/r.git";
  version = chars "0c3e";
  repo_type = chars "git";
  version_ref = none;
  packages = chars "a" ∷ chars "b" ∷ [];
}

abbrev listed_lock : Lockfile
listed_lock = record sample_lock { repositories = (chars "r", repo_r) ∷ [] }

remove_repo-lookup_example :
    (lookup (chars "r") (remove_repo (chars "r") listed_lock).repositories ≡ (
      if text_eq (chars "r") (chars "r")
      then none
      else lookup (chars "r") listed_lock.repositories))
    × (lookup (chars "c") (remove_repo (chars "r") listed_lock).packages ≡ (
        if contains_text repo_r.packages (chars "c")
        then none
        else lookup (chars "c") listed_lock.packages))
unfolding lookup text_eq
remove_repo-lookup_example =
    remove_repo-lookup (chars "r") repo_r listed_lock (chars "r") (chars "c") refl

-- `b` has to be built after `a`, and `c` after both; `c` comes first in the set.
abbrev chain_disk : Disk
chain_disk name l =
    if text_eq name (chars "b")
    then some (only_build (chars "a" ∷ chars "s" ∷ []))
    else if text_eq name (chars "c")
    then some (only_build (chars "b" ∷ chars "a" ∷ []))
    else none

abbrev chain : List Text
chain = chars "c" ∷ chars "a" ∷ chars "b" ∷ []

abbrev chain_rank : Text → ℕ
chain_rank name = if text_eq name (chars "a") then 0 else if text_eq name (chars "b") then 1 else 2

chain-distinct : (x : Text) → occurrences x chain ≤ 1
unfolding contains_text text_eq
chain-distinct = AllDistinct-occurrences chain (refl, (refl, (refl, tt)))

-- A property of the texts of the chain.
each_of_chain :
    (P : Text → Type 0)
    → P (chars "c")
    → P (chars "a")
    → P (chars "b")
    → (x : Text) → occurrences x chain ≡ 1
    → P x
unfolding occurrences
each_of_chain P c a b x locked = elim (Bool-cases (text_eq (chars "c") x)) [
  | inl same ↦ subst P ((text_eq_iff (chars "c") x).0 same) c
  | inr not_c ↦ elim (Bool-cases (text_eq (chars "a") x)) [
    | inl same ↦ subst P ((text_eq_iff (chars "a") x).0 same) a
    | inr not_a ↦ elim (Bool-cases (text_eq (chars "b") x)) [
      | inl same ↦ subst P ((text_eq_iff (chars "b") x).0 same) b
      | inr not_b ↦ absurd (omega (arith, locked, ap bit not_c, ap bit not_a, ap bit not_b))
    ]
  ]
]

abbrev Lower : Text → Text → Type 0
Lower x d = 1 ≤ occurrences d (deps_of chain_disk sample_lock x) → chain_rank d < chain_rank x

chain-IsRank : IsRank chain_disk sample_lock chain chain-distinct chain_rank
unfolding deps_of read_package_deps occurrences text_eq lookup
chain-IsRank x d locked known =
    each_of_chain (λ y. Lower y d)
      (each_of_chain (Lower (chars "c")) (λ h. omega (arith, h)) (λ h. omega (arith, h))
        (λ h. omega (arith, h)) d known)
      (each_of_chain (Lower (chars "a")) (λ h. omega (arith, h)) (λ h. omega (arith, h))
        (λ h. omega (arith, h)) d known)
      (each_of_chain (Lower (chars "b")) (λ h. omega (arith, h)) (λ h. omega (arith, h))
        (λ h. omega (arith, h)) d known)
      x locked

compute_build_order-once_example :
    (order : List Text) × (compute_build_order chain_disk sample_lock chain ≡ some order)
    × ((x : Text) → occurrences x order ≡ occurrences x chain)
compute_build_order-once_example =
    compute_build_order-once chain_disk sample_lock chain chain-distinct

compute_build_order-IsOrdered_example :
    (order : List Text) × (compute_build_order chain_disk sample_lock chain ≡ some order)
    × IsOrdered chain (deps_of chain_disk sample_lock) [] order
compute_build_order-IsOrdered_example =
    compute_build_order-IsOrdered chain_disk sample_lock chain chain-distinct chain_rank
      chain-IsRank

order_of_chain :
    compute_build_order chain_disk sample_lock chain ≡ some (chars "a" ∷ chars "b" ∷ chars "c" ∷ [])
unfolding compute_build_order deps_of read_package_deps add_all add_edges add_edge change all_zero
    kahn_loop release pop_last free_packages add_rest sorted lookup insert contains_text text_eq
    text_lt
order_of_chain = refl
