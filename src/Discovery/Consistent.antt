-- ===== src/Discovery/Consistent.antt =====
-- The lockfile that `generate_lockfile` of roscope/indexer.py returns.
use roscope.Base.{
  Text, Dict, chars, Bool, true, false, ◌||◌, List, [], ◌∷◌, Option, none, some, Result, return,
  raise, ◌≡◌, ◌⊎◌, refl, sym, ap, ◌∙◌, subst, arith, inl, inr, Bool-cases, if◌then◌else◌, text_eq,
  text_eq_iff, text_eq_refl, contains_text, sorted, lookup, insert, keys, lookup-insert,
  HasUniqueKeys,
}
use roscope.Base.Stateful.{pure, >>=-return}
use roscope.Machine.{Machine}
use roscope.Indexer.{Lockfile, RepoLock, PackageLock}
use roscope.Discovery.Parsed.{contains_text-sorted}
use roscope.Discovery.Xml.{Reader, PackageInfo}
use roscope.Discovery.Git.{GenerateError, resolve_version_from_repo}
use roscope.Discovery.Packages.{discover_packages}
use roscope.Discovery.Generate.{
  RepoEntry, ReposFile, names_of, repo_lock_of, add_unless, then_add, add_packages, given,
  repo_dir_of, add_repo, add_repos, generate_lockfile,
}

-- Each package is in the list of its repository, and each name in the list of a repository is a
-- package of it.
pub record IsConsistent (lockfile : Lockfile) : Type 0 where
  pub listed :
      (name : Text) (pkg_lock : PackageLock)
      → lookup name lockfile.packages ≡ some pkg_lock
      → (repo_lock : RepoLock) × (lookup pkg_lock.repo lockfile.repositories ≡ some repo_lock)
        × (contains_text repo_lock.packages name ≡ true)
  pub locked :
      (repo name : Text) (repo_lock : RepoLock)
      → lookup repo lockfile.repositories ≡ some repo_lock
      → contains_text repo_lock.packages name ≡ true
      → (pkg_lock : PackageLock) × (lookup name lockfile.packages ≡ some pkg_lock)
        × (pkg_lock.repo ≡ repo)

-- What the loop over the packages of a repository does for a name.
abbrev IsAdded : Text → List PackageInfo → Text → Dict PackageLock → Dict PackageLock → Type 0
IsAdded repo packages name before after =
    (contains_text (names_of packages) name ≡ true
      → (lookup name before ≡ none)
        × (pkg_lock : PackageLock) × (lookup name after ≡ some pkg_lock)
        × (pkg_lock.repo ≡ repo))
    × (contains_text (names_of packages) name ≡ false → lookup name after ≡ lookup name before)

return_eq : {A : Type 0} (a b : A) → ◌≡◌ {A = Result GenerateError A} (return a) (return b) → a ≡ b
return_eq a b e = cc

abbrev with_package : Text → PackageInfo → Dict PackageLock → Dict PackageLock
with_package repo pkg before = insert pkg.name (record { repo = repo; path = pkg.path }) before

by_name :
    (repo : Text) (packages : List PackageInfo) (before after : Dict PackageLock)
    (pkg : PackageInfo) (name : Text)
    → lookup pkg.name before ≡ none
    → IsAdded repo packages name (with_package repo pkg before) after
    → (text_eq pkg.name name ≡ true) ⊎ (text_eq pkg.name name ≡ false)
    → (contains_text (names_of packages) name ≡ true)
      ⊎ (contains_text (names_of packages) name ≡ false)
    → IsAdded repo (pkg ∷ packages) name before after
unfolding contains_text
by_name repo packages before after pkg name new rest (inl same) (inl again) =
    absurd (clash (sym (found same) ∙ (rest.0 again).0))
  where
    found :
        text_eq pkg.name name ≡ true
        → lookup name (with_package repo pkg before)
          ≡ some (record { repo = repo; path = pkg.path })
    found e = lookup-insert pkg.name name _ before ∙ rw e refl

    clash : {l : PackageLock} → some l ≡ none → ⊥
    clash e = cc
by_name repo packages before after pkg name new rest (inl same) (inr last) = (
  λ h. (
    subst (λ x. lookup x before ≡ none) ((text_eq_iff pkg.name name).0 same) new,
    record { repo = repo; path = pkg.path },
    rest.1 last ∙ lookup-insert pkg.name name _ before ∙ rw same refl,
    refl,
  ),
  λ h. absurd (clash (sym (rw same refl) ∙ h)),
)
  where
    clash : true ≡ false → ⊥
    clash e = cc
by_name repo packages before after pkg name new rest (inr other) c = (
  λ h.
      let (fresh, pkg_lock, at, same) = rest.0 (in_rest h) in
      (sym unchanged ∙ fresh, pkg_lock, at, same),
  λ h. rest.1 (not_in_rest h) ∙ unchanged,
)
  where
    unchanged : lookup name (with_package repo pkg before) ≡ lookup name before
    unchanged = lookup-insert pkg.name name _ before ∙ rw other refl

    in_rest :
        (text_eq pkg.name name || contains_text (names_of packages) name) ≡ true
        → contains_text (names_of packages) name ≡ true
    in_rest h = ground arith

    not_in_rest :
        (text_eq pkg.name name || contains_text (names_of packages) name) ≡ false
        → contains_text (names_of packages) name ≡ false
    not_in_rest h = ground arith

add_packages-IsAdded :
    (repo : Text) (packages : List PackageInfo) (before after : Dict PackageLock)
    → add_packages repo packages before ≡ return after
    → (name : Text) → IsAdded repo packages name before after
unfolding add_packages contains_text
add_packages-IsAdded repo [] before after e name =
    (λ h. absurd (clash h), λ h. ap (lookup name) (sym (return_eq before after e)))
  where
    clash : false ≡ true → ⊥
    clash h = cc
add_packages-IsAdded repo (pkg ∷ packages) before after e name =
    by_lookup (lookup pkg.name before) refl e (λ e'.
      add_packages-IsAdded repo packages
        (insert pkg.name (record { repo = repo; path = pkg.path }) before) after e' name)
  where
    by_lookup :
        (o : Option PackageLock)
        → lookup pkg.name before ≡ o
        → then_add (add_unless repo pkg o before) (add_packages repo packages) ≡ return after
        → (add_packages repo packages
                (insert pkg.name (record { repo = repo; path = pkg.path }) before)
              ≡ return after
            → IsAdded repo packages name
                (insert pkg.name (record { repo = repo; path = pkg.path }) before)
                after)
        → IsAdded repo (pkg ∷ packages) name before after
    by_lookup (some existing) found h rest = absurd (clash h)
      where
        clash :
            {x : GenerateError}
            → ◌≡◌ {A = Result GenerateError (Dict PackageLock)} (raise x) (return after)
            → ⊥
        clash k = cc
    by_lookup none new h rest =
        by_name repo packages before after pkg name new (rest h)
          (Bool-cases (text_eq pkg.name name)) (Bool-cases (contains_text (names_of packages) name))

some_eq : {A : Type 0} (a b : A) → some a ≡ some b → a ≡ b
some_eq a b e = cc

none-some : {A : Type 0} {a : A} (o : Option A) → o ≡ none → o ≡ some a → ⊥
none-some none e h = cc
none-some (some b) e h = cc

-- A repository with its packages in a consistent lockfile that has neither.
module _ (repo : Text) (repo_lock : RepoLock) (packages : List PackageInfo) (before : Lockfile)
    (after : Dict PackageLock) (names : repo_lock.packages ≡ sorted (names_of packages))
    (new : lookup repo before.repositories ≡ none)
    (added : (name : Text) → IsAdded repo packages name before.packages after)
    (consistent : IsConsistent before) where
  abbrev with_repo : Lockfile
  with_repo = record { repositories = insert repo repo_lock before.repositories; packages = after }

  listed_name :
      (name : Text) → contains_text repo_lock.packages name ≡ contains_text (names_of packages) name
  listed_name name = rw names (contains_text-sorted (names_of packages) name)

  lookup-new : lookup repo (insert repo repo_lock before.repositories) ≡ some repo_lock
  lookup-new = lookup-insert repo repo repo_lock before.repositories ∙ rw (text_eq_refl repo) refl

  lookup-old :
      (other : Text) (l : RepoLock)
      → lookup other before.repositories ≡ some l
      → lookup other (insert repo repo_lock before.repositories) ≡ some l
  lookup-old other l e =
      lookup-insert repo other repo_lock before.repositories
      ∙ (elim (Bool-cases (text_eq repo other)) [
        | inl same ↦ absurd (
            none-some (lookup other before.repositories)
              (subst (λ x. lookup x before.repositories ≡ none) ((text_eq_iff repo other).0 same)
                new)
              e)
        | inr different ↦ rw different e
      ])

  listed_in :
      (name : Text) (pkg_lock : PackageLock)
      → lookup name after ≡ some pkg_lock
      → (l : RepoLock) × (lookup pkg_lock.repo (insert repo repo_lock before.repositories) ≡ some l)
        × (contains_text l.packages name ≡ true)
  listed_in name pkg_lock e = elim (Bool-cases (contains_text (names_of packages) name)) [
    | inl found ↦
        let (fresh, lock, at, same) = (added name).0 found in
        let there : pkg_lock.repo ≡ repo =
          ap (λ (l : PackageLock). l.repo) (some_eq pkg_lock lock (sym e ∙ at)) ∙ same in
        (repo_lock, rw there lookup-new, listed_name name ∙ found)
    | inr other ↦
        let (l, at, inside) = consistent.listed name pkg_lock (sym ((added name).1 other) ∙ e) in
        (l, lookup-old pkg_lock.repo l at, inside)
  ]

  locked_in :
      (key name : Text) (l : RepoLock)
      → lookup key (insert repo repo_lock before.repositories) ≡ some l
      → contains_text l.packages name ≡ true
      → (pkg_lock : PackageLock) × (lookup name after ≡ some pkg_lock) × (pkg_lock.repo ≡ key)
  locked_in key name l e inside = elim (Bool-cases (text_eq repo key)) [
    | inl same ↦
        let new_lock : l ≡ repo_lock = sym (
          some_eq repo_lock l
            (sym (lookup-insert repo key repo_lock before.repositories ∙ rw same refl) ∙ e)) in
        let (fresh, lock, at, there) = (added name).0 (
          sym (listed_name name)
          ∙ subst (λ (x : RepoLock). contains_text x.packages name ≡ true) new_lock inside) in
        (lock, at, there ∙ (text_eq_iff repo key).0 same)
    | inr different ↦
        let (lock, at, there) =
          consistent.locked key name l
            (sym (lookup-insert repo key repo_lock before.repositories ∙ rw different refl) ∙ e)
            inside in
        (lock, kept lock at (Bool-cases (contains_text (names_of packages) name)), there)
  ]
    where
      kept :
          (lock : PackageLock)
          → lookup name before.packages ≡ some lock
          → (contains_text (names_of packages) name ≡ true)
            ⊎ (contains_text (names_of packages) name ≡ false)
          → lookup name after ≡ some lock
      kept lock at (inl again) =
          absurd (none-some (lookup name before.packages) ((added name).0 again).0 at)
      kept lock at (inr other) = (added name).1 other ∙ at

  with_repo-IsConsistent : IsConsistent with_repo
  with_repo-IsConsistent = record { listed = listed_in; locked = locked_in }

module _ {W : Type 0} (m : Machine W) (r : Reader) (tar_members : Text → List (Text × Option Text))
    (src_dir : Option Text) (recurse_submodules : Bool) where
  -- The repositories of a file that a lockfile does not have yet.
  abbrev AreNew : ReposFile → Lockfile → Type 0
  AreNew repos lockfile =
      (key : Text) → contains_text (keys repos) key ≡ true → lookup key lockfile.repositories ≡ none

  -- A lockfile with no other new repository than one.
  abbrev Extends : Text → Lockfile → Lockfile → Type 0
  Extends repo before after =
      IsConsistent after
      × ((key : Text)
          → text_eq repo key ≡ false
          → lookup key after.repositories ≡ lookup key before.repositories)

  add_repo-Extends :
      (repo : Text) (entry : RepoEntry) (before after : Lockfile) (w : W)
      → IsConsistent before
      → lookup repo before.repositories ≡ none
      → (add_repo m r tar_members src_dir recurse_submodules repo entry before w).0 ≡ return after
      → Extends repo before after
  add_repo-Extends repo entry before after w consistent new e =
      let resolve =
        resolve_version_from_repo m entry.url entry.version
          (repo_dir_of m r tar_members src_dir repo) in
      let (sha, got, e1) = >>=-return resolve _ w after e in
      let discover =
        discover_packages m r tar_members entry.url sha (repo_dir_of m r tar_members src_dir repo)
          recurse_submodules in
      let (packages, found, e2) = >>=-return discover _ (resolve w).1 after e1 in
      by_added sha packages (discover (resolve w).1).1 (add_packages repo packages before.packages)
        refl e2
    where
      by_added :
          (sha : Text) (packages : List PackageInfo) (w' : W)
          (locks : Result GenerateError (Dict PackageLock))
          → add_packages repo packages before.packages ≡ locks
          → (given m r tar_members locks
              (insert repo (repo_lock_of entry sha packages) before.repositories)
              w').0
            ≡ return after
          → Extends repo before after
      by_added sha packages w' (raise x) added h = cc
      by_added sha packages w' (return locks) added h =
          subst (Extends repo before) (return_eq _ after h) (
            with_repo-IsConsistent repo (repo_lock_of entry sha packages) packages before locks refl
                new (add_packages-IsAdded repo packages before.packages locks added) consistent,
            λ key other.
                lookup-insert repo key (repo_lock_of entry sha packages) before.repositories
                ∙ rw other refl,
          )

  add_repos-IsConsistent :
      (repos : ReposFile) (before after : Lockfile) (w : W)
      → HasUniqueKeys repos
      → AreNew repos before
      → IsConsistent before
      → (add_repos m r tar_members src_dir recurse_submodules repos before w).0 ≡ return after
      → IsConsistent after
  unfolding add_repos keys contains_text
  add_repos-IsConsistent [] before after w unique fresh consistent e =
      subst IsConsistent (return_eq before after e) consistent
  add_repos-IsConsistent ((repo, entry) ∷ repos) before after w unique fresh consistent e =
      let one =
        if text_eq entry.repo_type (chars "git")
        then add_repo m r tar_members src_dir recurse_submodules repo entry before
        else pure before in
      let (next, got, e1) = >>=-return one _ w after e in
      let (consistent', same) =
        step next (Bool-cases (text_eq entry.repo_type (chars "git"))) got in
      add_repos-IsConsistent repos next after (one w).1 unique.1
        (λ key inside.
          same key (not_repo key inside (Bool-cases (text_eq repo key)))
          ∙ fresh key (in_rest key inside))
        consistent' e1
    where
      step :
          (next : Lockfile)
          → (text_eq entry.repo_type (chars "git") ≡ true)
            ⊎ (text_eq entry.repo_type (chars "git") ≡ false)
          → ((if text_eq entry.repo_type (chars "git")
                then add_repo m r tar_members src_dir recurse_submodules repo entry before
                else pure before)
              w).0
            ≡ return next
          → Extends repo before next
      step next (inl git) h =
          add_repo-Extends repo entry before next w consistent
            (fresh repo (ground (arith, text_eq_refl repo))) (rw git at h)
      step next (inr other) h =
          let same : before ≡ next = return_eq before next (rw other at h) in
          subst (Extends repo before) same (consistent, λ key different. refl)

      not_repo :
          (key : Text)
          → contains_text (keys repos) key ≡ true
          → (text_eq repo key ≡ true) ⊎ (text_eq repo key ≡ false)
          → text_eq repo key ≡ false
      not_repo key inside (inr different) = different
      not_repo key inside (inl same) = absurd (
          clash (
            sym inside
            ∙ ap (contains_text (keys repos)) (sym ((text_eq_iff repo key).0 same))
            ∙ unique.0))
        where
          clash : true ≡ false → ⊥
          clash k = cc

      in_rest :
          (key : Text)
          → contains_text (keys repos) key ≡ true
          → (text_eq repo key || contains_text (keys repos) key) ≡ true
      in_rest key inside = ground arith

  -- A lockfile that is generated from a file whose repositories have different names is consistent:
  -- each package is in the list of its repository, and each name in such a list is a package of that
  -- repository.
  pub generate_lockfile-IsConsistent :
      (repos : ReposFile) (w : W) (lockfile : Lockfile)
      → HasUniqueKeys repos
      → (generate_lockfile m r tar_members src_dir recurse_submodules repos w).0 ≡ return lockfile
      → IsConsistent lockfile
  unfolding generate_lockfile lookup
  generate_lockfile-IsConsistent repos w lockfile unique e =
      add_repos-IsConsistent repos (record { repositories = []; packages = [] }) lockfile w unique
        (λ key inside. refl)
        (record { listed = λ name l h. cc; locked = λ repo name l h inside. cc }) e
