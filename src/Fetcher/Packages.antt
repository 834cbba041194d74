-- ===== src/Fetcher/Packages.antt =====
-- `fetch_packages` and the functions behind it in roscope/fetcher.py.
use roscope.Base.{
  Text, Dict, chars, Bool, false, ◌&&◌, List, [], ◌∷◌, ◌++◌, Option, none, some, Result, return,
  raise, if◌then◌else◌, text_eq, lookup, insert, keys, sorted,
}
use roscope.Base.Stateful.{◌>>=◌, pure, fail}
use roscope.Machine.{Machine}
use roscope.Indexer.{Lockfile, RepoLock, PackageLock}
use roscope.Fetcher.Git.{FetchOptions, FetchError, package_not_found, repository_not_found, Fetch}
use roscope.Fetcher.Repo.{fetch_repo_sparse}

pub record FetchedPackage : Type 0 where
  pub name : Text
  pub path : Text

-- The packages of each repository, with their paths in it.
abbrev pub Groups : Type 0
Groups = Dict (List (Text × Text))

abbrev pub or_nothing : Option (List (Text × Text)) → List (Text × Text)
or_nothing none = []
or_nothing (some packages) = packages

-- `repo_packages.setdefault(repo, []).append((name, path))`
unfoldable pub add_to_group : Text → Text × Text → Groups → Groups
add_to_group repo entry groups = insert repo (or_nothing (lookup repo groups) ++ entry ∷ []) groups

-- Of a package that the lockfile has.
abbrev pub with_lock :
    Text → Option PackageLock → (PackageLock → Result FetchError Groups) → Result FetchError Groups
with_lock pkg_name none next = raise (package_not_found pkg_name)
with_lock pkg_name (some pkg_lock) next = next pkg_lock

-- The loop that groups the packages by repository.
unfoldable pub group_packages : Lockfile → List Text → Groups → Result FetchError Groups
unfolding add_to_group
group_packages lockfile [] groups = return groups
group_packages lockfile (pkg_name ∷ packages) groups =
    with_lock pkg_name (lookup pkg_name lockfile.packages) (λ pkg_lock.
      group_packages lockfile packages
        (add_to_group pkg_lock.repo (pkg_name, pkg_lock.path) groups))

-- `"/**" if (p == "." or not p) else p`
abbrev pub sparse_path : Text → Text
sparse_path [] = chars "/**"
sparse_path (c ∷ path) = if text_eq (c ∷ path) (chars ".") then chars "/**" else c ∷ path

abbrev pub sparse_paths : List (Text × Text) → List Text
sparse_paths [] = []
sparse_paths ((name, path) ∷ pkg_list) = sparse_path path ∷ sparse_paths pkg_list

module _ {W : Type 0} (m : Machine W) where
  abbrev pub fetched_from : Text → List (Text × Text) → List FetchedPackage
  fetched_from repo_dir [] = []
  fetched_from repo_dir ((pkg_name, pkg_path) ∷ pkg_list) =
      record { name = pkg_name; path = m.join repo_dir pkg_path } ∷ fetched_from repo_dir pkg_list

  module _ (lockfile : Lockfile) (fetch_dir : Text) (options : FetchOptions) where
    abbrev pub fetch_group :
        Text → List (Text × Text) → Option RepoLock → Fetch m (List FetchedPackage)
    fetch_group workspace_path pkg_list none = fail (repository_not_found workspace_path)
    fetch_group workspace_path pkg_list (some repo_lock) = do
      fetched ←
          fetch_repo_sparse m repo_lock.url repo_lock.version (m.join fetch_dir workspace_path)
            (sparse_paths pkg_list) options
      pure (fetched_from (m.join fetch_dir workspace_path) pkg_list)

    -- The loop over the repositories.
    unfoldable pub fetch_groups : List Text → Groups → Fetch m (List FetchedPackage)
    unfolding fetch_repo_sparse
    fetch_groups [] groups = pure []
    fetch_groups (workspace_path ∷ paths) groups = do
      first ←
          fetch_group workspace_path (or_nothing (lookup workspace_path groups))
            (lookup workspace_path lockfile.repositories)
      rest ← fetch_groups paths groups
      pure (first ++ rest)

    abbrev pub fetch_grouped : Result FetchError Groups → Fetch m (List FetchedPackage)
    fetch_grouped (raise e) = fail e
    fetch_grouped (return groups) = fetch_groups (sorted (keys groups)) groups

    unfoldable pub fetch_packages : List Text → Fetch m (List FetchedPackage)
    unfolding group_packages fetch_groups
    fetch_packages packages = fetch_grouped (group_packages lockfile packages [])

    abbrev pub file_in_repo : PackageLock → Text → Text
    file_in_repo pkg_lock share_path = pkg_lock.path ++ (b'/' ∷ share_path)

    abbrev pub fetch_locked_file : PackageLock → Text → Option RepoLock → Fetch m Text
    fetch_locked_file pkg_lock share_path none = fail (repository_not_found pkg_lock.repo)
    fetch_locked_file pkg_lock share_path (some repo_lock) = do
      fetched ←
          fetch_repo_sparse m repo_lock.url repo_lock.version (m.join fetch_dir pkg_lock.repo)
            (file_in_repo pkg_lock share_path ∷ []) options
      pure (m.join (m.join (m.join fetch_dir pkg_lock.repo) pkg_lock.path) share_path)

    abbrev pub fetch_file_of : Text → Text → Option PackageLock → Fetch m Text
    fetch_file_of package_name share_path none = fail (package_not_found package_name)
    fetch_file_of package_name share_path (some pkg_lock) =
        fetch_locked_file pkg_lock share_path (lookup pkg_lock.repo lockfile.repositories)

    unfoldable pub fetch_file : Text → Text → Fetch m Text
    unfolding fetch_repo_sparse
    fetch_file package_name share_path =
        fetch_file_of package_name share_path (lookup package_name lockfile.packages)

  -- `fetch_dir / pkg_lock.repo / pkg_lock.path`
  abbrev pub package_path : Text → PackageLock → Text
  package_path fetch_dir pkg_lock = m.join (m.join fetch_dir pkg_lock.repo) pkg_lock.path

  abbrev pub has_package_xml : Text → W → Bool
  has_package_xml path w = m.exists (m.join path (chars "package.xml")) w

  abbrev pub fetched_at : Text → Option PackageLock → W → Bool
  fetched_at fetch_dir none w = false
  fetched_at fetch_dir (some pkg_lock) w =
      m.exists (package_path fetch_dir pkg_lock) w
      && has_package_xml (package_path fetch_dir pkg_lock) w

  unfoldable pub is_package_fetched : Text → Lockfile → Text → W → Bool
  is_package_fetched pkg_name lockfile fetch_dir w =
      fetched_at fetch_dir (lookup pkg_name lockfile.packages) w

  abbrev pub path_at : Text → Option PackageLock → W → Option Text
  path_at fetch_dir none w = none
  path_at fetch_dir (some pkg_lock) w =
      if m.exists (package_path fetch_dir pkg_lock) w
      then some (package_path fetch_dir pkg_lock)
      else none

  unfoldable pub get_package_path : Text → Lockfile → Text → W → Option Text
  get_package_path pkg_name lockfile fetch_dir w =
      path_at fetch_dir (lookup pkg_name lockfile.packages) w
