-- ===== src/Fetcher/Tests.antt =====
-- Runs of the fetcher on a small machine, and the theorems about it at concrete inputs.
use roscope.Base.{
  TextMem, Text, chars, List, [], ◌∷◌, ◌++◌, Option, none, some, Bool, raise, ◌≡◌, refl, true,
  false, ◌&&◌, text_eq, text_lt, lookup, insert, keys, sorted, contains_text, strip, is_space,
  split_on, if◌then◌else◌, sym, ap, Perm,
}
use roscope.Machine.{Machine, Completed}
use roscope.Indexer.{Lockfile, RepoLock, PackageLock}
use roscope.Fetcher.Git.{
  FetchOptions, dirty_state, default_state, package_not_found, run_git, get_current_sha,
  is_working_tree_dirty, is_sparse_checkout_enabled, describe_repo_state, verify_repo_state,
  is_empty_text,
}
use roscope.Fetcher.Repo.{fetch_repo_sparse, ensure_remote_url, add_sparse_paths_if_needed}
use roscope.Fetcher.Packages.{
  FetchedPackage, fetch_packages, group_packages, fetch_groups, add_to_group, package_path,
  has_package_xml,
}
use roscope.Fetcher.Laws.{
  GitLaws, LeavesTree, prints_head, prints_status, prints_sparse, prints_url, adds_url, sets_url,
  LeavesHead, leaves_tree, lists_sparse, adds_sparse, reapplies_sparse,
}
use roscope.Fetcher.Verified.{fetch_repo_sparse-default_verified}
use roscope.Fetcher.Collected.{fetch_packages-locked, AreLocked}
use roscope.Rosdep.Install.{Process}
use roscope.Fetcher.Available.{
  ensure_package_available, fetch_available, ensure_installed, installed_share,
  ensure_package_available-locked, ensure_package_available-installed,
}
use roscope.Locator.{add_ament_from_env, locate_install_share}
use roscope.Fetcher.Refused.{fetch_packages-missing, fetch_packages-dirty}

-- The commit that is checked out, and whether a file of it is edited.
abbrev Checkout : Type 0
Checkout = Text × Bool

abbrev answer : Text → Completed
answer stdout = record { returncode = 0; stdout = stdout; stderr = [] }

-- What `rev-parse` and `status` print; all else prints nothing.
abbrev printed : Text → Checkout → Text
printed command (sha, edited) =
    if text_eq command (chars "rev-parse")
    then sha
    else if text_eq command (chars "status") && edited
    then chars " M file"
    else []

-- `checkout` moves HEAD to its argument.
abbrev moved : Bool → List Text → Checkout → Checkout
moved true (sha ∷ args) (old, edited) = (sha, edited)
moved true [] w = w
moved false args w = w

abbrev small_git : List Text → Checkout → Option Completed × Checkout
small_git [] w = (none, w)
small_git (command ∷ args) w =
    (some (answer (printed command w)), moved (text_eq command (chars "checkout")) args w)

abbrev small_machine : Machine Checkout
small_machine = record {
  unicode = record { wide_space = λ c. false; wide_alnum = λ c. false };
  environ = [];
  join = λ a b. a ++ b'/' ∷ b;
  parent = λ path. path;
  name_of = λ path. path;
  resolve = λ path w. path;
  exists = λ path w. true;
  is_dir = λ path w. true;
  list_dir = λ path w. none;
  walk = λ path w. [];
  make_parent = λ path w. (true, w);
  run = λ program args cwd w. small_git args w;
}

stdout_eq :
    (stdout : Text) (result : Completed)
    → ◌≡◌ {A = Option Completed} (some (answer stdout)) (some result)
    → result.stdout ≡ stdout
stdout_eq stdout result e = ap (λ (o : Option Completed). out o) (sym e)
  where
    out : Option Completed → Text
    out none = []
    out (some r) = r.stdout

small_git-LeavesTree :
    (args : List Text) (w : Checkout) → LeavesTree args → (small_git args w).1 ≡ w
unfolding text_eq
small_git-LeavesTree args w prints_head = refl
small_git-LeavesTree args w prints_status = refl
small_git-LeavesTree args w prints_sparse = refl
small_git-LeavesTree args w prints_url = refl
small_git-LeavesTree args w (adds_url url) = refl
small_git-LeavesTree args w (sets_url url) = refl

small_git-LeavesHead :
    (args : List Text) (w : Checkout) → LeavesHead args → (small_git args w).1 ≡ w
unfolding text_eq
small_git-LeavesHead args w (leaves_tree h) = small_git-LeavesTree args w h
small_git-LeavesHead args w lists_sparse = refl
small_git-LeavesHead args w (adds_sparse paths) = refl
small_git-LeavesHead args w reapplies_sparse = refl

small_laws : GitLaws small_machine (chars "/f/r")
unfolding text_eq contains_text
small_laws = record {
  head = λ w. strip small_machine.unicode w.0;
  is_unchanged = λ w.
      is_empty_text small_machine
        (strip small_machine.unicode (if w.1 then chars " M file" else []));
  rev_parse = λ w result ran ok. ap (strip small_machine.unicode) (stdout_eq w.0 result ran);
  status = λ w result ran ok.
      ap (λ t. is_empty_text small_machine (strip small_machine.unicode t))
        (stdout_eq (if w.1 then chars " M file" else []) result ran);
  tree = λ args w h. rw (small_git-LeavesTree args w h) refl;
  unmoved = λ args w h. rw (small_git-LeavesHead args w h) refl;
}

abbrev default_options : FetchOptions
default_options = record {
  recurse_submodules = false;
  shallow = false;
  workspace_state = default_state;
}

abbrev dirty_options : FetchOptions
dirty_options = record {
  recurse_submodules = false;
  shallow = false;
  workspace_state = dirty_state;
}

fetch_repo_sparse-default_verified_example :
    (small_laws.head (chars "9c", false) ≡ chars "9c")
    × (small_laws.is_unchanged (chars "9c", false) ≡ true)
    × (small_laws.head
          (fetch_repo_sparse small_machine
            (chars "url")
            (chars "9c")
            (chars "/f/r")
            (chars "a" ∷ [])
            default_options
            (chars "9c", false)).1
        ≡ chars "9c")
unfolding ensure_remote_url run_git text_eq strip is_space contains_text fetch_repo_sparse
    verify_repo_state describe_repo_state get_current_sha is_working_tree_dirty
    add_sparse_paths_if_needed is_sparse_checkout_enabled
fetch_repo_sparse-default_verified_example =
    fetch_repo_sparse-default_verified small_machine (chars "/f/r") small_laws (chars "url")
      (chars "9c") (chars "a" ∷ []) default_options (chars "9c", false) refl refl refl refl

abbrev repo_lock : RepoLock
repo_lock = record {
  url = chars "url";
  version = chars "9c";
  repo_type = chars "git";
  version_ref = none;
  packages = [];
}

abbrev locked : Text → Text → Text × PackageLock
locked name repo = (name, record { repo = repo; path = name })

-- `a` and `c` are in the repository `s`, and `b` is in `r`.
abbrev sample_lock : Lockfile
sample_lock = record {
  repositories = (chars "r", repo_lock) ∷ (chars "s", repo_lock) ∷ [];
  packages =
      locked (chars "a") (chars "s")
      ∷ locked (chars "b") (chars "r")
      ∷ locked (chars "c") (chars "s")
      ∷ [];
}

abbrev asked : List Text
asked = chars "a" ∷ chars "b" ∷ chars "c" ∷ []

abbrev at : Text → Text → FetchedPackage
at name path = record { name = name; path = path }

fetch_packages-locked_example :
    (expected : List FetchedPackage) × AreLocked small_machine sample_lock
      (chars "/f")
      asked
      expected
    × Perm
        (at (chars "b") (chars "/f/r/b")
          ∷ at (chars "a") (chars "/f/s/a")
          ∷ at (chars "c") (chars "/f/s/c")
          ∷ [])
        expected
unfolding fetch_packages group_packages add_to_group lookup insert fetch_groups sorted keys text_eq
    ensure_remote_url run_git strip is_space contains_text fetch_repo_sparse verify_repo_state
    describe_repo_state get_current_sha is_working_tree_dirty add_sparse_paths_if_needed
    is_sparse_checkout_enabled text_lt
fetch_packages-locked_example =
    fetch_packages-locked small_machine sample_lock (chars "/f") default_options asked
      (chars "9c", false) _ refl

fetch_packages-missing_example :
    fetch_packages small_machine sample_lock
      (chars "/f")
      default_options
      (chars "a" ∷ chars "x" ∷ chars "b" ∷ [])
      (chars "1b", false)
    ≡ (raise (package_not_found (chars "x")), (chars "1b", false))
unfolding lookup text_eq
fetch_packages-missing_example =
    fetch_packages-missing small_machine sample_lock (chars "/f") default_options (chars "a" ∷ [])
      (chars "x") (chars "b" ∷ []) (chars "1b", false) (refl, tt) refl

fetch_packages-dirty_example :
    (fetch_packages small_machine sample_lock (chars "/f") dirty_options asked (chars "1b", true)).1
    ≡ (chars "1b", true)
fetch_packages-dirty_example =
    fetch_packages-dirty small_machine sample_lock (chars "/f") dirty_options refl asked
      (chars "1b", true)

abbrev process : Process Checkout
process = record {
  is_updated = false;
  installed_cache = none;
  break_system = none;
  disk = (chars "9c", false);
}

ensure_package_available-locked_example :
    (chars "/f/r/b"
      ≡ package_path small_machine (chars "/f") (record { repo = chars "r"; path = chars "b" }))
    × (has_package_xml small_machine (chars "/f/r/b") (chars "9c", false) ≡ true)
unfolding ensure_package_available fetch_available fetch_packages group_packages add_to_group lookup
    insert fetch_groups sorted keys text_eq ensure_remote_url run_git strip is_space contains_text
    fetch_repo_sparse verify_repo_state describe_repo_state get_current_sha is_working_tree_dirty
    add_sparse_paths_if_needed is_sparse_checkout_enabled text_lt
ensure_package_available-locked_example =
    ensure_package_available-locked small_machine (chars "b") default_options sample_lock
      (chars "/f") false process (record { repo = chars "r"; path = chars "b" }) (chars "/f/r/b")
      refl refl

abbrev ament_machine : Machine Checkout
ament_machine = record small_machine { environ = (chars "AMENT_PREFIX_PATH", chars "/p") ∷ [] }

ensure_package_available-installed_example :
    (prefix : Text) × TextMem prefix (split_on b':' (chars "/p"))
    × (let share = ament_machine.join (ament_machine.join prefix (chars "share")) (chars "x") in
        (ament_machine.exists share (chars "9c", false) ≡ true)
        × (chars "/p/share/x" ≡ ament_machine.resolve share (chars "9c", false)))
unfolding ensure_package_available ensure_installed installed_share add_ament_from_env
    locate_install_share lookup text_eq split_on
ensure_package_available-installed_example =
    ensure_package_available-installed ament_machine (chars "x") default_options sample_lock
      (chars "/f") false process (chars "/p/share/x") refl refl
