-- ===== src/Discovery/Generate.antt =====
-- `generate_lockfile` of roscope/indexer.py.
use roscope.Base.{
  Text, Dict, chars, Bool, List, [], ◌∷◌, Option, none, some, Result, return, raise, if◌then◌else◌,
  text_eq, lookup, insert, sorted,
}
use roscope.Base.Stateful.{◌>>=◌, pure, fail}
use roscope.Machine.{Machine}
use roscope.Indexer.{Lockfile, RepoLock, PackageLock}
use roscope.Discovery.Xml.{Reader, PackageInfo}
use roscope.Discovery.Git.{GenerateError, duplicate_package, Indexing, resolve_version_from_repo}
use roscope.Discovery.Packages.{discover_packages}

-- The classes of roscope/types.py for a .repos file.
pub record RepoEntry : Type 0 where
  pub repo_type : Text
  pub url : Text
  pub version : Text

abbrev pub ReposFile : Type 0
ReposFile = Dict RepoEntry

abbrev pub names_of : List PackageInfo → List Text
names_of [] = []
names_of (pkg ∷ packages) = pkg.name ∷ names_of packages

abbrev pub version_ref_of : Text → Text → Option Text
version_ref_of version sha = if text_eq version sha then none else some version

abbrev pub repo_lock_of : RepoEntry → Text → List PackageInfo → RepoLock
repo_lock_of entry sha packages = record {
  url = entry.url;
  version = sha;
  repo_type = chars "git";
  version_ref = version_ref_of entry.version sha;
  packages = sorted (names_of packages);
}

abbrev pub add_unless :
    Text
    → PackageInfo
    → Option PackageLock
    → Dict PackageLock
    → Result GenerateError (Dict PackageLock)
add_unless workspace_path pkg (some existing) locks =
    raise (duplicate_package pkg.name existing.repo workspace_path)
add_unless workspace_path pkg none locks =
    return (insert pkg.name (record { repo = workspace_path; path = pkg.path }) locks)

abbrev pub then_add :
    Result GenerateError (Dict PackageLock)
    → (Dict PackageLock → Result GenerateError (Dict PackageLock))
    → Result GenerateError (Dict PackageLock)
then_add (raise e) next = raise e
then_add (return locks) next = next locks

-- The loop over the packages of a repository.
unfoldable pub add_packages :
    Text → List PackageInfo → Dict PackageLock → Result GenerateError (Dict PackageLock)
add_packages workspace_path [] locks = return locks
add_packages workspace_path (pkg ∷ packages) locks =
    then_add (add_unless workspace_path pkg (lookup pkg.name locks) locks)
      (add_packages workspace_path packages)

module _ {W : Type 0} (m : Machine W) (r : Reader)
    (tar_members : Text → List (Text × Option Text)) where
  abbrev pub given : Result GenerateError (Dict PackageLock) → Dict RepoLock → Indexing m Lockfile
  given (raise e) repositories = fail e
  given (return packages) repositories =
      pure (record { repositories = repositories; packages = packages })

  abbrev pub repo_dir_of : Option Text → Text → Option Text
  repo_dir_of none workspace_path = none
  repo_dir_of (some src_dir) workspace_path = some (m.join src_dir workspace_path)

  module _ (src_dir : Option Text) (recurse_submodules : Bool) where
    -- A repository of the file.
    abbrev pub add_repo : Text → RepoEntry → Lockfile → Indexing m Lockfile
    add_repo workspace_path entry lockfile = do
      sha ← resolve_version_from_repo m entry.url entry.version (repo_dir_of src_dir workspace_path)
      packages ←
          discover_packages m r tar_members entry.url sha (repo_dir_of src_dir workspace_path)
            recurse_submodules
      given (add_packages workspace_path packages lockfile.packages)
          (insert workspace_path (repo_lock_of entry sha packages) lockfile.repositories)

    -- The loop over the repositories. Those of another type are skipped.
    unfoldable pub add_repos : ReposFile → Lockfile → Indexing m Lockfile
    unfolding resolve_version_from_repo discover_packages add_packages
    add_repos [] lockfile = pure lockfile
    add_repos ((workspace_path, entry) ∷ repos) lockfile = do
      next ←
          (if text_eq entry.repo_type (chars "git")
            then add_repo workspace_path entry lockfile
            else pure lockfile)
      add_repos repos next

    unfoldable pub generate_lockfile : ReposFile → Indexing m Lockfile
    unfolding add_repos
    generate_lockfile repos = add_repos repos (record { repositories = []; packages = [] })
