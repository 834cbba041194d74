-- ===== src/Fetcher/Collected.antt =====
-- What `fetch_packages` of roscope/fetcher.py returns and raises.
use roscope.Base.{
  Text, Bool, true, false, List, [], ◌∷◌, ◌++◌, Option, none, some, Result, return, raise, ◌≡◌,
  refl, sym, ◌∙◌, ap, subst, inl, inr, Bool-cases, if◌then◌else◌, text_eq, text_eq_iff,
  text_eq_refl, text_eq_comm, lookup, insert, keys, sorted, contains_text, gather, gather-sorted,
  append_swap, HasUniqueKeys, insert-HasUniqueKeys, Perm, append_assoc, append-nil,
}
use mathlib.Core.List.Perm
use roscope.Base.Stateful.{pure, >>=-return}
use roscope.Machine.{Machine}
use roscope.Indexer.{Lockfile, RepoLock, PackageLock}
use roscope.Fetcher.Git.{FetchOptions, FetchError}
use roscope.Fetcher.Repo.{fetch_repo_sparse}
use roscope.Fetcher.Packages.{
  FetchedPackage, Groups, or_nothing, add_to_group, with_lock, group_packages, sparse_paths,
  fetched_from, fetch_group, fetch_groups, fetch_grouped, fetch_packages, package_path,
}

module _ {W : Type 0} (m : Machine W) (lockfile : Lockfile) (fetch_dir : Text) where
  -- The packages of all groups, where the lockfile has them.
  abbrev fetched_in : Text → List (Text × Text) → List FetchedPackage
  fetched_in repo packages = fetched_from m (m.join fetch_dir repo) packages

  unfoldable all_fetched : Groups → List FetchedPackage
  all_fetched [] = []
  all_fetched ((repo, packages) ∷ groups) = fetched_in repo packages ++ all_fetched groups

  abbrev located : Text → Option PackageLock → List FetchedPackage
  located pkg_name none = []
  located pkg_name (some pkg_lock) =
      record { name = pkg_name; path = package_path m fetch_dir pkg_lock } ∷ []

  -- The packages of a list that the lockfile has, with the paths that it gives them.
  unfoldable locked_packages : List Text → List FetchedPackage
  locked_packages [] = []
  locked_packages (pkg_name ∷ packages) =
      located pkg_name (lookup pkg_name lockfile.packages) ++ locked_packages packages

  -- One entry for each package of a list, in its order: the lockfile has it, and the entry has its
  -- name and the path that the lockfile gives it.
  abbrev pub AreLocked : List Text → List FetchedPackage → Type 0
  AreLocked [] [] = Unit
  AreLocked [] (f ∷ fetched) = ⊥
  AreLocked (pkg_name ∷ packages) [] = ⊥
  AreLocked (pkg_name ∷ packages) (f ∷ fetched) =
      (f.name ≡ pkg_name)
      × ((pkg_lock : PackageLock) × (lookup pkg_name lockfile.packages ≡ some pkg_lock)
          × (f.path ≡ m.join (m.join fetch_dir pkg_lock.repo) pkg_lock.path))
      × AreLocked packages fetched

  -- Where the packages can be grouped, the lockfile has them all.
  locked_packages-AreLocked :
      (packages : List Text) (before after : Groups)
      → group_packages lockfile packages before ≡ return after
      → AreLocked packages (locked_packages packages)
  unfolding locked_packages group_packages
  locked_packages-AreLocked [] before after e = tt
  locked_packages-AreLocked (pkg_name ∷ packages) before after e =
      by_lock (lookup pkg_name lockfile.packages) refl (locked_packages-AreLocked packages) e
    where
      by_lock :
          (lock : Option PackageLock)
          → lookup pkg_name lockfile.packages ≡ lock
          → ((middle after' : Groups)
              → group_packages lockfile packages middle ≡ return after'
              → AreLocked packages (locked_packages packages))
          → with_lock pkg_name lock (λ pkg_lock.
            group_packages lockfile packages
              (add_to_group pkg_lock.repo (pkg_name, pkg_lock.path) before))
            ≡ return after
          → AreLocked (pkg_name ∷ packages) (located pkg_name lock ++ locked_packages packages)
      by_lock none found rest h = absurd (refused h)
        where
          refused :
              {x : FetchError} → ◌≡◌ {A = Result FetchError Groups} (raise x) (return after) → ⊥
          refused k = cc
      by_lock (some pkg_lock) found rest h = (refl, (pkg_lock, found, refl), rest _ after h)

  fetched_in-append :
      (repo : Text) (xs ys : List (Text × Text))
      → fetched_in repo (xs ++ ys) ≡ fetched_in repo xs ++ fetched_in repo ys
  fetched_in-append repo [] ys = refl
  fetched_in-append repo ((name, path) ∷ xs) ys = rw (fetched_in-append repo xs ys) refl

  add_to_group-cons :
      (repo other : Text) (entry : Text × Text) (packages : List (Text × Text)) (groups : Groups)
      → add_to_group repo entry ((other, packages) ∷ groups) ≡ (
          if text_eq other repo
          then (other, packages ++ entry ∷ []) ∷ groups
          else (other, packages) ∷ add_to_group repo entry groups)
  unfolding add_to_group insert lookup
  add_to_group-cons repo other entry packages groups = by_test (text_eq other repo)
    where
      by_test :
          (b : Bool)
          → (if b
              then (
                other,
                or_nothing (if b then some packages else lookup repo groups) ++ entry ∷ [],
              )
                ∷ groups
              else (other, packages)
                ∷ insert repo
                    (or_nothing (if b then some packages else lookup repo groups) ++ entry ∷ [])
                    groups)
            ≡ (if b
                then (other, packages ++ entry ∷ []) ∷ groups
                else (other, packages) ∷ add_to_group repo entry groups)
      by_test true = refl
      by_test false = refl

  all_fetched-add_to_group :
      (repo : Text) (entry : Text × Text) (groups : Groups)
      → Perm
          (all_fetched (add_to_group repo entry groups))
          (fetched_in repo (entry ∷ []) ++ all_fetched groups)
  unfolding all_fetched add_to_group insert lookup
  all_fetched-add_to_group repo entry [] = Perm.rfl
  all_fetched-add_to_group repo entry ((other, packages) ∷ groups) =
      elim (Bool-cases (text_eq other repo)) [
        | inl same ↦
            rw (add_to_group-cons repo other entry packages groups)
              (rw same (rw (sym ((text_eq_iff other repo).0 same)) (added other)))
        | inr different ↦ rw (add_to_group-cons repo other entry packages groups) (
            rw different (
              Perm.trans
                (Perm.append_left (fetched_in other packages)
                  (all_fetched-add_to_group repo entry groups))
                (append_swap (fetched_in other packages) (fetched_in repo (entry ∷ []))
                  (all_fetched groups))))
      ]
    where
      added :
          (at : Text)
          → Perm
              (fetched_in at (packages ++ entry ∷ []) ++ all_fetched groups)
              (fetched_in at (entry ∷ []) ++ (fetched_in at packages ++ all_fetched groups))
      added at = rw (fetched_in-append at packages (entry ∷ [])) (
          rw
            (append_assoc (fetched_in at packages) (fetched_in at (entry ∷ []))
              (all_fetched groups))
            (append_swap (fetched_in at packages) (fetched_in at (entry ∷ []))
              (all_fetched groups)))

  -- The groups hold the packages that were added to those before.
  all_fetched-group_packages :
      (packages : List Text) (before after : Groups)
      → group_packages lockfile packages before ≡ return after
      → Perm (all_fetched after) (locked_packages packages ++ all_fetched before)
  unfolding locked_packages group_packages
  all_fetched-group_packages [] before after e = rw (return_eq e) Perm.rfl
    where
      return_eq : ◌≡◌ {A = Result FetchError Groups} (return before) (return after) → before ≡ after
      return_eq h = cc
  all_fetched-group_packages (pkg_name ∷ packages) before after e =
      by_lock (lookup pkg_name lockfile.packages) (all_fetched-group_packages packages) e
    where
      by_lock :
          (lock : Option PackageLock)
          → ((middle after' : Groups)
              → group_packages lockfile packages middle ≡ return after'
              → Perm (all_fetched after') (locked_packages packages ++ all_fetched middle))
          → with_lock pkg_name lock (λ pkg_lock.
            group_packages lockfile packages
              (add_to_group pkg_lock.repo (pkg_name, pkg_lock.path) before))
            ≡ return after
          → Perm
              (all_fetched after)
              ((located pkg_name lock ++ locked_packages packages) ++ all_fetched before)
      by_lock none rest h = cc
      by_lock (some pkg_lock) rest h =
          let entry : Text × Text = (pkg_name, pkg_lock.path) in
          Perm.trans
            (Perm.trans (rest (add_to_group pkg_lock.repo entry before) after h) (
              Perm.append_left (locked_packages packages)
                (all_fetched-add_to_group pkg_lock.repo entry before)))
            (append_swap (locked_packages packages) (fetched_in pkg_lock.repo (entry ∷ []))
              (all_fetched before))

  group_packages-HasUniqueKeys :
      (packages : List Text) (before after : Groups)
      → HasUniqueKeys before
      → group_packages lockfile packages before ≡ return after
      → HasUniqueKeys after
  unfolding group_packages add_to_group
  group_packages-HasUniqueKeys [] before after unique e = subst HasUniqueKeys (return_eq e) unique
    where
      return_eq : ◌≡◌ {A = Result FetchError Groups} (return before) (return after) → before ≡ after
      return_eq h = cc
  group_packages-HasUniqueKeys (pkg_name ∷ packages) before after unique e =
      by_lock (lookup pkg_name lockfile.packages) (group_packages-HasUniqueKeys packages) e
    where
      by_lock :
          (lock : Option PackageLock)
          → ((middle after' : Groups)
              → HasUniqueKeys middle
              → group_packages lockfile packages middle ≡ return after'
              → HasUniqueKeys after')
          → with_lock pkg_name lock (λ pkg_lock.
            group_packages lockfile packages
              (add_to_group pkg_lock.repo (pkg_name, pkg_lock.path) before))
            ≡ return after
          → HasUniqueKeys after
      by_lock none rest h = cc
      by_lock (some pkg_lock) rest h =
          rest _ after (insert-HasUniqueKeys pkg_lock.repo _ before unique) h

  in_group : Groups → Text → List FetchedPackage
  in_group groups repo = fetched_in repo (or_nothing (lookup repo groups))

  -- A group that no key of a list names can be left out.
  gather-in_group-tail :
      (repo : Text) (packages : List (Text × Text)) (groups : Groups) (repos : List Text)
      → contains_text repos repo ≡ false
      → gather (in_group ((repo, packages) ∷ groups)) repos ≡ gather (in_group groups) repos
  unfolding gather contains_text lookup in_group
  gather-in_group-tail repo packages groups [] h = refl
  gather-in_group-tail repo packages groups (other ∷ repos) h =
      let rest = gather-in_group-tail repo packages groups repos in
      elim (Bool-cases (text_eq other repo)) [
        | inl same ↦ absurd (clash (rw same at h))
        | inr different ↦
            rw (text_eq_comm repo other)
              (rw different (ap (λ l. in_group groups other ++ l) (rest (rw different at h))))
      ]
    where
      clash : true ≡ false → ⊥
      clash e = cc

  gather-in_group :
      (groups : Groups)
      → HasUniqueKeys groups
      → gather (in_group groups) (keys groups) ≡ all_fetched groups
  unfolding gather keys all_fetched lookup in_group
  gather-in_group [] unique = refl
  gather-in_group ((repo, packages) ∷ groups) unique = rw (text_eq_refl repo) (
      ap (λ l. fetched_in repo packages ++ l)
        (gather-in_group-tail repo packages groups (keys groups) unique.0
          ∙ gather-in_group groups unique.1))

  module _ (options : FetchOptions) where
    return_eq : {A : Type 0} (a b : A) → ◌≡◌ {A = Result FetchError A} (return a) (return b) → a ≡ b
    return_eq a b e = cc

    fetch_group-in_group :
        (repo : Text) (packages : List (Text × Text)) (repo_lock : Option RepoLock) (w : W)
        (fetched : List FetchedPackage)
        → (fetch_group m lockfile fetch_dir options repo packages repo_lock w).0 ≡ return fetched
        → fetched_in repo packages ≡ fetched
    unfolding fetch_repo_sparse
    fetch_group-in_group repo packages none w fetched e = cc
    fetch_group-in_group repo packages (some repo_lock) w fetched e =
        let (u, ran, same) =
          >>=-return
            (fetch_repo_sparse m repo_lock.url repo_lock.version (m.join fetch_dir repo)
              (sparse_paths packages) options)
            (λ _. pure (fetched_in repo packages)) w fetched e in
        return_eq _ fetched same

    fetch_groups-gather :
        (repos : List Text) (groups : Groups) (w : W) (fetched : List FetchedPackage)
        → (fetch_groups m lockfile fetch_dir options repos groups w).0 ≡ return fetched
        → gather (in_group groups) repos ≡ fetched
    unfolding fetch_groups gather in_group
    fetch_groups-gather [] groups w fetched e = return_eq _ fetched e
    fetch_groups-gather (repo ∷ repos) groups w fetched e =
        let packages = or_nothing (lookup repo groups) in
        let locked = lookup repo lockfile.repositories in
        let one = fetch_group m lockfile fetch_dir options repo packages locked in
        let (first, got, e1) = >>=-return one _ w fetched e in
        let (rest, got_rest, e2) =
          >>=-return (fetch_groups m lockfile fetch_dir options repos groups)
            (λ rest. pure (first ++ rest)) (one w).1 fetched e1 in
        rw (fetch_group-in_group repo packages locked w first got)
          (rw (fetch_groups-gather repos groups (one w).1 rest got_rest) (return_eq _ fetched e2))

    -- A call of `fetch_packages` that returns was asked for packages that the lockfile has only, and
    -- yields, in some order, exactly those asked for, as often as they were asked for, each with the path
    -- that the lockfile gives it.
    pub fetch_packages-locked :
        (packages : List Text) (w : W) (fetched : List FetchedPackage)
        → (fetch_packages m lockfile fetch_dir options packages w).0 ≡ return fetched
        → (expected : List FetchedPackage) × AreLocked packages expected × Perm fetched expected
    unfolding fetch_packages all_fetched
    fetch_packages-locked packages w fetched e =
        by_groups (group_packages lockfile packages []) refl e
      where
        by_groups :
            (r : Result FetchError Groups)
            → group_packages lockfile packages [] ≡ r
            → (fetch_grouped m lockfile fetch_dir options r w).0 ≡ return fetched
            → (expected : List FetchedPackage) × AreLocked packages expected × Perm fetched expected
        by_groups (raise x) grouped h = absurd (clash h)
          where
            clash : ◌≡◌ {A = Result FetchError (List FetchedPackage)} (raise x) (return fetched) → ⊥
            clash k = cc
        by_groups (return groups) grouped h = (
          locked_packages packages,
          locked_packages-AreLocked packages [] groups grouped,
          rw (sym (fetch_groups-gather (sorted (keys groups)) groups w fetched h)) (
              Perm.trans (gather-sorted (in_group groups) (keys groups)) (
                rw
                  (gather-in_group groups
                    (group_packages-HasUniqueKeys packages [] groups tt grouped))
                  (rw (sym (append-nil (locked_packages packages)))
                    (all_fetched-group_packages packages [] groups grouped)))),
        )
