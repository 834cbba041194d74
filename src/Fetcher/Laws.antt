-- ===== src/Fetcher/Laws.antt =====
-- What the fetcher relies on of git, for one repository: of the commands that a fetch in the default
-- mode runs there, with their arguments.
use roscope.Base.{Text, chars, Bool, true, List, [], ◌∷◌, some, ◌≡◌, strip}
use roscope.Machine.{Machine, Completed, succeeded}
use roscope.Fetcher.Git.{rev_parse_head, status_porcelain, sparse_checkout, is_empty_text}

-- The commands that change no file of the working tree, and nothing that `git status` depends on: those
-- that print, and those that set the URL of the remote.
pub data LeavesTree : List Text → Type 0 where
  prints_head : LeavesTree rev_parse_head
  prints_status : LeavesTree status_porcelain
  prints_sparse : LeavesTree (chars "config" ∷ chars "--get" ∷ chars "core.sparseCheckout" ∷ [])
  prints_url : LeavesTree (chars "remote" ∷ chars "get-url" ∷ chars "origin" ∷ [])
  adds_url : (url : Text) → LeavesTree (chars "remote" ∷ chars "add" ∷ chars "origin" ∷ url ∷ [])
  sets_url :
      (url : Text) → LeavesTree (chars "remote" ∷ chars "set-url" ∷ chars "origin" ∷ url ∷ [])

-- Those commands, and the ones of `sparse-checkout` that the fetch runs: they change which files are on
-- disk, but do not move HEAD.
pub data LeavesHead : List Text → Type 0 where
  leaves_tree : {args : List Text} → LeavesTree args → LeavesHead args
  lists_sparse : LeavesHead (sparse_checkout (chars "list" ∷ []))
  adds_sparse : (paths : List Text) → LeavesHead (sparse_checkout (chars "add" ∷ paths))
  reapplies_sparse : LeavesHead (sparse_checkout (chars "reapply" ∷ []))

pub record GitLaws {W : Type 0} (m : Machine W) (repo_dir : Text) : Type 0 where
  -- the commit that is checked out, and whether `git status` has nothing to report
  pub head : W → Text
  pub is_unchanged : W → Bool
  pub rev_parse :
      (w : W) (result : Completed)
      → (m.run (chars "git") rev_parse_head (some repo_dir) w).0 ≡ some result
      → succeeded result ≡ true
      → strip m.unicode result.stdout ≡ head w
  pub status :
      (w : W) (result : Completed)
      → (m.run (chars "git") status_porcelain (some repo_dir) w).0 ≡ some result
      → succeeded result ≡ true
      → is_empty_text m (strip m.unicode result.stdout) ≡ is_unchanged w
  pub tree :
      (args : List Text) (w : W)
      → LeavesTree args
      → is_unchanged (m.run (chars "git") args (some repo_dir) w).1 ≡ is_unchanged w
  pub unmoved :
      (args : List Text) (w : W)
      → LeavesHead args
      → head (m.run (chars "git") args (some repo_dir) w).1 ≡ head w
