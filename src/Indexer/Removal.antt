-- ===== src/Indexer/Removal.antt =====
-- `Lockfile.remove_repo` of roscope/types.py.
use roscope.Base.{
  Text, Dict, List, [], ◌∷◌, Option, none, some, Bool, true, false, ◌||◌, lookup, remove,
  contains_text, text_eq, if◌then◌else◌, lookup-remove, ◌≡◌, refl,
}
use roscope.Indexer.{Lockfile, RepoLock}

-- `self.packages.pop(pkg_name, None)` for each name
unfoldable pub remove_all {ℓ} : {V : Type ℓ} → List Text → Dict V → Dict V
remove_all [] packages = packages
remove_all (pkg_name ∷ names) packages = remove_all names (remove pkg_name packages)

abbrev pub remove_found : Text → Option RepoLock → Lockfile → Lockfile
remove_found workspace_path none lockfile = lockfile
remove_found workspace_path (some repo) lockfile = record lockfile {
  repositories = remove workspace_path lockfile.repositories;
  packages = remove_all repo.packages lockfile.packages;
}

unfoldable pub remove_repo : Text → Lockfile → Lockfile
unfolding remove_all
remove_repo workspace_path lockfile =
    remove_found workspace_path (lookup workspace_path lockfile.repositories) lockfile

if_either {ℓ} :
    {V : Type ℓ} (a b : Bool) (o : Option V)
    → (if b then none else if a then none else o) ≡ (if a || b then none else o)
if_either true true o = refl
if_either true false o = refl
if_either false true o = refl
if_either false false o = refl

lookup-remove_all {ℓ} :
    {V : Type ℓ} (name : Text) (names : List Text) (d : Dict V)
    → lookup name (remove_all names d) ≡ (if contains_text names name then none else lookup name d)
unfolding remove_all contains_text
lookup-remove_all name [] d = refl
lookup-remove_all name (k ∷ names) d =
    rw (lookup-remove_all name names (remove k d), lookup-remove k name d)
      (if_either (text_eq k name) (contains_text names name) (lookup name d))

-- Removing a repository that the lockfile has: afterwards it is gone, with exactly the packages
-- that it lists, and every other repository and package is found as before.
pub remove_repo-lookup :
    (workspace_path : Text) (repo : RepoLock) (lockfile : Lockfile) (path name : Text)
    → lookup workspace_path lockfile.repositories ≡ some repo
    → (lookup path (remove_repo workspace_path lockfile).repositories
        ≡ (if text_eq workspace_path path then none else lookup path lockfile.repositories))
      × (lookup name (remove_repo workspace_path lockfile).packages
          ≡ (if contains_text repo.packages name then none else lookup name lockfile.packages))
unfolding remove_repo
remove_repo-lookup workspace_path repo lockfile path name found = rw found (
  lookup-remove workspace_path path lockfile.repositories,
  lookup-remove_all name repo.packages lockfile.packages,
)
