-- ===== src/Fetcher/Git.antt =====
-- The git commands of roscope/fetcher.py.
use roscope.Base.{
  Text, chars, Bool, true, false, not, ◌&&◌, List, [], ◌∷◌, Option, none, some, Result, return,
  raise, if◌then◌else◌, text_eq, contains_text, strip, splitlines,
}
use roscope.Base.Stateful.{Stateful, ◌>>=◌, ◌>>◌, pure, fail}
use roscope.Machine.{Machine, Completed, succeeded}

pub data WorkspaceState : Type 0 where
  clean_state dirty_state default_state : WorkspaceState

pub record FetchOptions : Type 0 where
  pub recurse_submodules : Bool
  pub shallow : Bool
  pub workspace_state : WorkspaceState

-- The exceptions: `GitError` where git is missing, of a command that failed, and of a repository
-- in a wrong state; `PackageNotFoundError` and the `GitError` of a repository that the lockfile
-- lacks, by their names; and the `OSError` of `mkdir`. Their messages are not modelled.
pub data FetchError : Type 0 where
  git_missing os_error : FetchError
  git_failed : List Text → FetchError
  unexpected_state : Text → FetchError
  package_not_found repository_not_found : Text → FetchError

abbrev pub is_clean : WorkspaceState → Bool
is_clean clean_state = true
is_clean _ = false

abbrev pub is_dirty : WorkspaceState → Bool
is_dirty dirty_state = true
is_dirty _ = false

abbrev pub option_list : Bool → List Text → List Text
option_list true args = args
option_list false args = []

-- `git rev-parse HEAD`, `git status --porcelain`
abbrev pub rev_parse_head : List Text
rev_parse_head = chars "rev-parse" ∷ chars "HEAD" ∷ []

abbrev pub status_porcelain : List Text
status_porcelain = chars "status" ∷ chars "--porcelain" ∷ []

abbrev pub sparse_checkout : List Text → List Text
sparse_checkout args = chars "sparse-checkout" ∷ args

module _ {W : Type 0} (m : Machine W) where
  abbrev pub Fetch : Type 0 → Type 0
  Fetch = Stateful W FetchError

  abbrev pub completed : Bool → List Text → Option Completed → Result FetchError Completed
  completed check args none = raise git_missing
  completed check args (some result) =
      if check && not (succeeded result) then raise (git_failed args) else return result

  -- `_run_git` with its argument `check`
  unfoldable pub run_git : Bool → List Text → Option Text → Fetch Completed
  run_git check args cwd w =
      let ran = m.run (chars "git") args cwd w in (completed check args ran.0, ran.1)

  -- A command in a repository that has to succeed.
  abbrev pub git : List Text → Text → Fetch (Unit {0})
  git args repo_dir = do r ← run_git true args (some repo_dir); pure tt

  unfoldable pub get_current_sha : Text → Fetch Text
  unfolding run_git strip
  get_current_sha repo_dir = do
    result ← run_git true rev_parse_head (some repo_dir)
    pure (strip m.unicode result.stdout)

  abbrev pub is_empty_text : Text → Bool
  is_empty_text [] = true
  is_empty_text (c ∷ s) = false

  unfoldable pub is_working_tree_dirty : Text → Fetch Bool
  unfolding run_git strip
  is_working_tree_dirty repo_dir = do
    result ← run_git true status_porcelain (some repo_dir)
    pure (not (is_empty_text (strip m.unicode result.stdout)))

  unfoldable pub is_sparse_checkout_enabled : Text → Fetch Bool
  unfolding run_git strip
  is_sparse_checkout_enabled repo_dir = do
    result ←
        run_git false (chars "config" ∷ chars "--get" ∷ chars "core.sparseCheckout" ∷ [])
          (some repo_dir)
    pure (succeeded result && text_eq (strip m.unicode result.stdout) (chars "true"))

  unfoldable pub init_sparse_checkout : Text → Fetch (Unit {0})
  unfolding run_git
  init_sparse_checkout repo_dir =
      git (sparse_checkout (chars "init" ∷ chars "--no-cone" ∷ [])) repo_dir

  unfoldable pub set_sparse_checkout_paths : Text → List Text → Fetch (Unit {0})
  unfolding run_git
  set_sparse_checkout_paths repo_dir paths =
      git (sparse_checkout (chars "set" ∷ chars "--no-cone" ∷ paths)) repo_dir

  unfoldable pub add_sparse_checkout_paths : Text → List Text → Fetch (Unit {0})
  unfolding run_git
  add_sparse_checkout_paths repo_dir paths = git (sparse_checkout (chars "add" ∷ paths)) repo_dir

  abbrev pub nonempty_lines : List Text → List Text
  nonempty_lines [] = []
  nonempty_lines ([] ∷ lines) = nonempty_lines lines
  nonempty_lines ((c ∷ line) ∷ lines) = (c ∷ line) ∷ nonempty_lines lines

  unfoldable pub get_sparse_checkout_paths : Text → Fetch (List Text)
  unfolding run_git splitlines
  get_sparse_checkout_paths repo_dir = do
    result ← run_git false (sparse_checkout (chars "list" ∷ [])) (some repo_dir)
    pure (if succeeded result then nonempty_lines (splitlines result.stdout) else [])

  -- `[p for p in paths if p not in current]`
  abbrev pub absent_from : List Text → List Text → List Text
  absent_from current [] = []
  absent_from current (path ∷ paths) =
      if contains_text current path
      then absent_from current paths
      else path ∷ absent_from current paths

  -- Whether there is a description. A dirty tree is asked for its status once more, for the text.
  unfoldable pub describe_repo_state : Text → Text → Fetch Bool
  unfolding run_git get_current_sha is_working_tree_dirty
  describe_repo_state repo_dir expected_sha = do
    current_sha ← get_current_sha repo_dir
    dirty ← is_working_tree_dirty repo_dir
    if dirty
        then (run_git false status_porcelain (some repo_dir) >> pure true)
        else pure (not (text_eq current_sha expected_sha))

  unfoldable pub verify_repo_state : Text → Text → Fetch (Unit {0})
  unfolding describe_repo_state
  verify_repo_state repo_dir expected_sha = do
    described ← describe_repo_state repo_dir expected_sha
    if described then fail (unexpected_state repo_dir) else pure tt
