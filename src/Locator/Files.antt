-- ===== src/Locator/Files.antt =====
-- The launch files of a package: `find_share_file` and the methods of `PackageLocator` in
-- roscope/locator.py that look for one.
use roscope.Base.{
  ℕ, Text, List, [], ◌∷◌, ◌++◌, Option, none, some, Result, return, raise, ◌≡◌, refl, ◌∙◌, ap, sym,
  ◌+◌, ◌≤◌, arith, inl, inr, Bool-cases, if◌then◌else◌, text_eq, length, length-append, suc,
}
use roscope.Machine.{Machine}
use roscope.Indexer.{Lockfile}
use roscope.Locator.{PackageLocator, resolve_launch_file, locate_package_share}

-- `FileNotFoundError`, `MultipleLaunchFilesError` with its paths, and the `LookupError` of a locator
-- without a lockfile, without a workspace, and of a package that is not locked.
pub data LocatorError : Type 0 where
  file_not_found no_lockfile no_workspace not_in_lockfile : LocatorError
  multiple_files : List Text → LocatorError

abbrev pub Found : Type 0 → Type 0
Found = Result LocatorError

abbrev pub one_match : List Text → Found Text
one_match [] = raise file_not_found
one_match (path ∷ []) = return path
one_match (path ∷ next ∷ paths) = raise (multiple_files (path ∷ next ∷ paths))

-- A file that is not found is no error.
abbrev pub or_not_found : Found Text → Found (Option Text)
or_not_found (return path) = return (some path)
or_not_found (raise file_not_found) = return none
or_not_found (raise e) = raise e

-- The launch file of a package, or `none` where there is none.
abbrev pub file_or_err : Found (Option Text) → Found Text
file_or_err (return (some path)) = return path
file_or_err (return none) = raise file_not_found
file_or_err (raise e) = raise e

abbrev pub lookup_error : Option Lockfile → Option Text → LocatorError
lookup_error none workspace_src = no_lockfile
lookup_error (some lockfile) none = no_workspace
lookup_error (some lockfile) (some workspace_src) = not_in_lockfile

abbrev pub path_or_err : LocatorError → Option Text → Found Text
path_or_err e none = raise e
path_or_err e (some path) = return path

module _ {W : Type 0} (m : Machine W) where
  abbrev pub matches_in : Text → Text → List Text → List Text
  matches_in file_name root [] = []
  matches_in file_name root (name ∷ files) =
      if text_eq name file_name
      then m.join root name ∷ matches_in file_name root files
      else matches_in file_name root files

  abbrev pub matches : Text → List (Text × List Text) → List Text
  matches file_name [] = []
  matches file_name ((root, files) ∷ dirs) =
      matches_in file_name root files ++ matches file_name dirs

  unfoldable pub resolve_launch_file_or_err : PackageLocator → Text → Text → Found Text
  unfolding resolve_launch_file
  resolve_launch_file_or_err loc package_name launcher =
      path_or_err (lookup_error loc.lockfile loc.workspace_src)
        (resolve_launch_file m loc package_name launcher)

  module _ (w : W) where
    unfoldable pub find_share_file : Text → Text → Found Text
    find_share_file share_dir file_name = one_match (matches file_name (m.walk share_dir w))

    abbrev pub launch_file_in : Text → Option Text → Found (Option Text)
    launch_file_in launcher none = return none
    launch_file_in launcher (some pkg_share) = or_not_found (find_share_file pkg_share launcher)

    unfoldable pub locate_launch_file : PackageLocator → Text → Text → Found (Option Text)
    unfolding locate_package_share find_share_file
    locate_launch_file loc package_name launcher =
        launch_file_in launcher (locate_package_share m w loc package_name)

    unfoldable pub locate_launch_file_or_err : PackageLocator → Text → Text → Found Text
    unfolding locate_launch_file
    locate_launch_file_or_err loc package_name launcher =
        file_or_err (locate_launch_file loc package_name launcher)

  -- How many files of a walk have a name.
  abbrev pub count_name : Text → List Text → ℕ
  count_name name [] = 0
  count_name name (file ∷ files) =
      if text_eq file name then suc (count_name name files) else count_name name files

  abbrev pub count_files : Text → List (Text × List Text) → ℕ
  count_files name [] = 0
  count_files name ((root, files) ∷ dirs) = count_name name files + count_files name dirs

  -- What the search gives for a number of files.
  abbrev pub IsSearchOf : ℕ → Found (Option Text) → Type 0
  IsSearchOf n (return none) = n ≡ 0
  IsSearchOf n (return (some path)) = n ≡ 1
  IsSearchOf n (raise (multiple_files paths)) = (length paths ≡ n) × (2 ≤ n)
  IsSearchOf n (raise e) = ⊥

  length-matches_in :
      (name root : Text) (files : List Text)
      → length (matches_in name root files) ≡ count_name name files
  length-matches_in name root [] = refl
  length-matches_in name root (file ∷ files) = elim (Bool-cases (text_eq file name)) [
    | inl same ↦ rw same (ap suc (length-matches_in name root files))
    | inr other ↦ rw other (length-matches_in name root files)
  ]

  length-matches :
      (name : Text) (dirs : List (Text × List Text))
      → length (matches name dirs) ≡ count_files name dirs
  length-matches name [] = refl
  length-matches name ((root, files) ∷ dirs) =
      length-append (matches_in name root files) (matches name dirs)
      ∙ rw (length-matches_in name root files) (rw (length-matches name dirs) refl)

  one_match-IsSearchOf :
      (n : ℕ) (paths : List Text) → length paths ≡ n → IsSearchOf n (or_not_found (one_match paths))
  one_match-IsSearchOf n [] e = sym e
  one_match-IsSearchOf n (path ∷ []) e = sym e
  one_match-IsSearchOf n (path ∷ next ∷ paths) e = (e, omega arith)

  -- For a package that is found, `locate_launch_file` returns a path exactly if one file in all of its
  -- share directory has the name, and nothing exactly if there is no such file; if there are more, it
  -- raises the error that lists as many.
  pub locate_launch_file-count :
      (w : W) (loc : PackageLocator) (package_name launcher pkg_share : Text)
      → locate_package_share m w loc package_name ≡ some pkg_share
      → IsSearchOf
          (count_files launcher (m.walk pkg_share w))
          (locate_launch_file w loc package_name launcher)
  unfolding locate_launch_file find_share_file
  locate_launch_file-count w loc package_name launcher pkg_share found = rw found (
      one_match-IsSearchOf _ (matches launcher (m.walk pkg_share w))
        (length-matches launcher (m.walk pkg_share w)))
