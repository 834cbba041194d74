-- ===== src/Indexer.antt =====
-- Lockfiles and dependencies: the record types of roscope/types.py and the functions of
-- roscope/indexer.py that read and search them.
pub mod Closure
pub mod Reached
pub mod Removal
pub mod Order
mod Tests
use roscope.Base.{ℕ, Text, Dict, List, [], ◌∷◌, ◌++◌, Option, none, some, Bool, lookup}

pub record RepoLock : Type 0 where
  pub url : Text
  pub version : Text
  pub repo_type : Text
  pub version_ref : Option Text
  pub packages : List Text

pub record PackageLock : Type 0 where
  pub repo : Text
  pub path : Text

pub record Lockfile : Type 0 where
  pub repositories : Dict RepoLock
  pub packages : Dict PackageLock

pub record Dependencies : Type 0 where
  pub build : List Text
  pub build_export : List Text
  pub buildtool : List Text
  pub buildtool_export : List Text
  pub exec : List Text
  pub test : List Text

pub data DependencyMode : Type 0 where
  build_only exec_only build_and_exec everything : DependencyMode

-- What `_read_package_deps` finds on disk for a package that the lockfile has: `none` where the
-- file cannot be read or parsed. A file that is no UTF-8 is not modelled.
abbrev pub Disk : Type 0
Disk = Text → PackageLock → Option Dependencies

unfoldable pub read_package_deps : Disk → Lockfile → Text → Option Dependencies
read_package_deps disk lockfile pkg_name = elim (lookup pkg_name lockfile.packages) [
  | none ↦ none
  | some pkg_lock ↦ disk pkg_name pkg_lock
]

abbrev pub build_deps : Dependencies → List Text
build_deps deps = deps.build ++ (deps.build_export ++ (deps.buildtool ++ deps.buildtool_export))

-- The lists that the queue is extended by, in the order of the calls.
unfoldable pub mode_deps : DependencyMode → Dependencies → List Text
mode_deps build_only deps = build_deps deps
mode_deps exec_only deps = deps.exec
mode_deps build_and_exec deps = build_deps deps ++ deps.exec
mode_deps everything deps = build_deps deps ++ (deps.exec ++ deps.test)
