-- ===== src/Fetcher/Refused.antt =====
-- The calls of `fetch_packages` in roscope/fetcher.py that run no git command.
use roscope.Base.{
  Text, true, List, [], ◌∷◌, ◌++◌, Option, none, some, Result, return, raise, ◌≡◌, refl, lookup,
  is_some, keys, sorted, All,
}
use roscope.Base.Stateful.{Keeps, >>=-Keeps, pure-Keeps, fail-Keeps}
use roscope.Machine.{Machine}
use roscope.Indexer.{Lockfile, RepoLock, PackageLock}
use roscope.Fetcher.Git.{FetchOptions, FetchError, dirty_state, package_not_found}
use roscope.Fetcher.Repo.{fetch_repo_sparse}
use roscope.Fetcher.Packages.{
  Groups, add_to_group, with_lock, group_packages, fetch_group, fetch_groups, fetch_grouped,
  fetch_packages,
}

module _ (lockfile : Lockfile) where
  group_packages-missing :
      (before : List Text) (pkg_name : Text) (after : List Text) (groups : Groups)
      → All (λ name. is_some (lookup name lockfile.packages) ≡ true) before
      → lookup pkg_name lockfile.packages ≡ none
      → group_packages lockfile (before ++ pkg_name ∷ after) groups
        ≡ raise (package_not_found pkg_name)
  unfolding group_packages
  group_packages-missing [] pkg_name after groups locked missing = rw missing refl
  group_packages-missing (name ∷ before) pkg_name after groups locked missing =
      by_lock (lookup name lockfile.packages) locked.0
        (λ gs. group_packages-missing before pkg_name after gs locked.1 missing)
    where
      by_lock :
          (lock : Option PackageLock)
          → is_some lock ≡ true
          → ((gs : Groups)
              → group_packages lockfile (before ++ pkg_name ∷ after) gs
                ≡ raise (package_not_found pkg_name))
          → with_lock name lock (λ pkg_lock.
            group_packages lockfile
              (before ++ pkg_name ∷ after)
              (add_to_group pkg_lock.repo (name, pkg_lock.path) groups))
            ≡ raise (package_not_found pkg_name)
      by_lock none h rest = cc
      by_lock (some pkg_lock) h rest = rest _

module _ {W : Type 0} (m : Machine W) (lockfile : Lockfile) (fetch_dir : Text)
    (options : FetchOptions) where
  -- A list of packages with one that the lockfile lacks makes `fetch_packages` raise for the first such
  -- package, before any git command is run.
  pub fetch_packages-missing :
      (before : List Text) (pkg_name : Text) (after : List Text) (w : W)
      → All (λ name. is_some (lookup name lockfile.packages) ≡ true) before
      → lookup pkg_name lockfile.packages ≡ none
      → fetch_packages m lockfile fetch_dir options (before ++ pkg_name ∷ after) w
        ≡ (raise (package_not_found pkg_name), w)
  unfolding fetch_packages
  fetch_packages-missing before pkg_name after w locked missing =
      rw (group_packages-missing lockfile before pkg_name after [] locked missing) refl

  module _ (dirty : options.workspace_state ≡ dirty_state) where
    same : W → W
    same w = w

    fetch_repo_sparse-dirty :
        (url sha repo_dir : Text) (paths : List Text)
        → Keeps same (fetch_repo_sparse m url sha repo_dir paths options)
    unfolding fetch_repo_sparse Keeps
    fetch_repo_sparse-dirty url sha repo_dir paths w = rw dirty refl

    fetch_group-dirty :
        (repo : Text) (packages : List (Text × Text)) (repo_lock : Option RepoLock)
        → Keeps same (fetch_group m lockfile fetch_dir options repo packages repo_lock)
    fetch_group-dirty repo packages none = fail-Keeps same _ _
    fetch_group-dirty repo packages (some repo_lock) =
        >>=-Keeps same _ _ (fetch_repo_sparse-dirty repo_lock.url repo_lock.version _ _)
          (λ u. pure-Keeps same _ _)

    fetch_groups-dirty :
        (repos : List Text) (groups : Groups)
        → Keeps same (fetch_groups m lockfile fetch_dir options repos groups)
    unfolding fetch_groups
    fetch_groups-dirty [] groups = pure-Keeps same _ _
    fetch_groups-dirty (repo ∷ repos) groups =
        >>=-Keeps same _ _ (fetch_group-dirty repo _ _) (λ first.
          >>=-Keeps same _ _ (fetch_groups-dirty repos groups) (λ rest. pure-Keeps same _ _))

    fetch_grouped-dirty :
        (groups : Result FetchError Groups)
        → Keeps same (fetch_grouped m lockfile fetch_dir options groups)
    fetch_grouped-dirty (raise e) = fail-Keeps same _ _
    fetch_grouped-dirty (return groups) = fetch_groups-dirty (sorted (keys groups)) groups

    -- In the dirty mode `fetch_packages` leaves the machine as it was, whether it returns or raises.
    pub fetch_packages-dirty :
        (packages : List Text) (w : W)
        → (fetch_packages m lockfile fetch_dir options packages w).1 ≡ w
    unfolding fetch_packages Keeps same
    fetch_packages-dirty packages w = fetch_grouped-dirty (group_packages lockfile packages []) w
