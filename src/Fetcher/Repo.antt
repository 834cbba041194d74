-- ===== src/Fetcher/Repo.antt =====
-- The checkout of one repository: `_checkout_sha` to `fetch_repo_sparse` of roscope/fetcher.py.
use roscope.Base.{
  Text, chars, Bool, true, false, not, ◌&&◌, ◌||◌, List, [], ◌∷◌, ◌++◌, none, some, return, raise,
  if◌then◌else◌, text_eq, strip,
}
use roscope.Base.Stateful.{◌>>=◌, ◌>>◌, pure}
use roscope.Machine.{Machine, succeeded}
use roscope.Fetcher.Git.{
  default_state, FetchOptions, os_error, is_clean, is_dirty, option_list, sparse_checkout, Fetch,
  run_git, git, get_current_sha, is_empty_text, is_working_tree_dirty, is_sparse_checkout_enabled,
  init_sparse_checkout, set_sparse_checkout_paths, add_sparse_checkout_paths,
  get_sparse_checkout_paths, absent_from, describe_repo_state, verify_repo_state,
}

module _ {W : Type 0} (m : Machine W) where
  -- `if b: method`
  abbrev pub when : Bool → Fetch m (Unit {0}) → Fetch m (Unit {0})
  when true method = method
  when false method = pure tt

  unfoldable pub stash_if_dirty : Text → Text → Fetch m Bool
  unfolding run_git is_working_tree_dirty describe_repo_state
  stash_if_dirty repo_dir expected_sha = do
    dirty ← is_working_tree_dirty m repo_dir
    if dirty
        then (do
          described ← describe_repo_state m repo_dir expected_sha
          result ←
              run_git m true
                (chars "stash"
                  ∷ chars "push"
                  ∷ chars "--include-untracked"
                  ∷ chars "-m"
                  ∷ chars "roscope auto-stash before clean checkout"
                  ∷ [])
                (some repo_dir)
          pure true)
        else pure false

  abbrev pub fetch_sha : Text → Text → Text → FetchOptions → Fetch m (Unit {0})
  fetch_sha repo_dir url sha options =
      git m
        (chars "fetch" ∷ option_list options.shallow (chars "--depth=1" ∷ [])
          ++ chars "--" ∷ url ∷ sha ∷ [])
        repo_dir

  -- A failure is logged.
  abbrev pub update_submodules : Text → FetchOptions → Fetch m (Unit {0})
  update_submodules repo_dir options = do
    result ←
        run_git m false
          (chars "submodule"
            ∷ chars "update"
            ∷ chars "--init"
            ∷ chars "--recursive"
            ∷ chars "--depth=1"
            ∷ option_list (is_clean options.workspace_state) (chars "--force" ∷ []))
          (some repo_dir)
    pure tt

  unfoldable pub checkout_sha : Text → Text → Text → FetchOptions → Fetch m (Unit {0})
  unfolding run_git stash_if_dirty
  checkout_sha repo_dir url sha options = do
    stashed ← when (is_clean options.workspace_state) (stash_if_dirty repo_dir sha >> pure tt)
    have_locally ← run_git m false (chars "cat-file" ∷ chars "-t" ∷ sha ∷ []) (some repo_dir)
    fetched ← when (not (succeeded have_locally)) (fetch_sha repo_dir url sha options)
    checked_out ← git m (chars "checkout" ∷ sha ∷ []) repo_dir
    when options.recurse_submodules (update_submodules repo_dir options)

  abbrev pub add_and_reapply : Text → List Text → Fetch m (Unit {0})
  add_and_reapply repo_dir [] = pure tt
  add_and_reapply repo_dir (path ∷ to_add) = do
    added ← add_sparse_checkout_paths m repo_dir (path ∷ to_add)
    git m (sparse_checkout (chars "reapply" ∷ [])) repo_dir

  unfoldable pub add_sparse_paths_if_needed : Text → List Text → Fetch m (Unit {0})
  unfolding run_git is_sparse_checkout_enabled get_sparse_checkout_paths add_sparse_checkout_paths
  add_sparse_paths_if_needed repo_dir paths = do
    enabled ← is_sparse_checkout_enabled m repo_dir
    when enabled (do
      current ← get_sparse_checkout_paths m repo_dir
      add_and_reapply repo_dir (absent_from m current paths))

  unfoldable pub make_parent : Text → Fetch m (Unit {0})
  make_parent repo_dir w =
      let made = m.make_parent repo_dir w in (if made.0 then return tt else raise os_error, made.1)

  unfoldable pub sparse_clone : Text → Text → Text → List Text → FetchOptions → Fetch m (Unit {0})
  unfolding run_git make_parent set_sparse_checkout_paths checkout_sha
  sparse_clone url sha repo_dir paths options = do
    made ← make_parent repo_dir
    cloned ←
        run_git m true
          (chars "clone"
              ∷ chars "--filter=blob:none"
              ∷ chars "--sparse"
              ∷ chars "--single-branch"
              ∷ option_list options.shallow (chars "--depth=1" ∷ [])
            ++ option_list options.recurse_submodules
                (chars "--recurse-submodules" ∷ chars "--shallow-submodules" ∷ [])
            ++ url ∷ repo_dir ∷ [])
          none
    set ← set_sparse_checkout_paths m repo_dir paths
    checkout_sha repo_dir url sha options

  -- `(repo_dir / ".git" / "index").exists()`
  abbrev pub has_index : Text → Fetch m Bool
  has_index repo_dir w =
      (return (m.exists (m.join (m.join repo_dir (chars ".git")) (chars "index")) w), w)

  -- The set-up of a clone that nothing is checked out in yet.
  abbrev pub begin_sparse : Text → Text → Text → List Text → FetchOptions → Fetch m (Unit {0})
  begin_sparse repo_dir url sha paths options = do
    initialised ← init_sparse_checkout m repo_dir
    set ← set_sparse_checkout_paths m repo_dir paths
    checkout_sha repo_dir url sha options

  -- A repository without sparse checkout that has a commit.
  abbrev pub update_full : Text → Text → Text → Text → FetchOptions → Fetch m (Unit {0})
  update_full repo_dir url sha current_sha options =
      if is_dirty options.workspace_state then pure tt else (do
        need_checkout ←
            (if text_eq current_sha sha then is_working_tree_dirty m repo_dir else pure true)
        when need_checkout (checkout_sha repo_dir url sha options))

  -- The paths that are missing are added; whether there were any.
  abbrev pub add_missing : Text → List Text → Fetch m Bool
  add_missing repo_dir [] = pure false
  add_missing repo_dir (path ∷ to_add) = do
    added ← add_sparse_checkout_paths m repo_dir (path ∷ to_add)
    pure true

  -- One with sparse checkout. `or` asks for the status only where it decides.
  abbrev pub update_sparse : Text → Text → Text → List Text → FetchOptions → Fetch m (Unit {0})
  update_sparse repo_dir url sha paths options = do
    current_sha ← get_current_sha m repo_dir
    current ← get_sparse_checkout_paths m repo_dir
    added_paths ← add_missing repo_dir (absent_from m current paths)
    need_checkout ←
        (if not (text_eq current_sha sha) || added_paths
          then pure true
          else if is_clean options.workspace_state
          then is_working_tree_dirty m repo_dir
          else pure false)
    when need_checkout (checkout_sha repo_dir url sha options)

  abbrev pub bootstrap : FetchOptions → FetchOptions
  bootstrap options = record options { workspace_state = default_state }

  -- A repository with an index.
  abbrev pub update_indexed : Text → Text → Text → List Text → FetchOptions → Fetch m (Unit {0})
  update_indexed repo_dir url sha paths options = do
    sparse_enabled ← is_sparse_checkout_enabled m repo_dir
    if sparse_enabled then update_sparse repo_dir url sha paths options else (do
      current_sha ← get_current_sha m repo_dir
      if is_empty_text m current_sha
          then begin_sparse repo_dir url sha paths options
          else update_full repo_dir url sha current_sha options)

  unfoldable pub update_sparse_checkout :
      Text → Text → Text → List Text → FetchOptions → Fetch m (Unit {0})
  unfolding run_git is_sparse_checkout_enabled get_current_sha is_working_tree_dirty checkout_sha
      init_sparse_checkout set_sparse_checkout_paths add_sparse_checkout_paths
      get_sparse_checkout_paths
  update_sparse_checkout repo_dir url sha paths options = do
    indexed ← has_index repo_dir
    if indexed
        then update_indexed repo_dir url sha paths options
        else begin_sparse repo_dir url sha paths (bootstrap options)

  abbrev pub remote_command : Text → Text → List Text
  remote_command [] url = chars "remote" ∷ chars "add" ∷ chars "origin" ∷ url ∷ []
  remote_command (c ∷ current) url = chars "remote" ∷ chars "set-url" ∷ chars "origin" ∷ url ∷ []

  unfoldable pub ensure_remote_url : Text → Text → Fetch m (Unit {0})
  unfolding run_git strip
  ensure_remote_url repo_dir url = do
    result ←
        run_git m false (chars "remote" ∷ chars "get-url" ∷ chars "origin" ∷ []) (some repo_dir)
    let current = if succeeded result then strip m.unicode result.stdout else [] in
        when (not (text_eq current url)) (git m (remote_command current url) repo_dir)

  -- A repository on disk in the default mode.
  abbrev pub fetch_default : Text → Text → Text → List Text → FetchOptions → Fetch m (Unit {0})
  fetch_default url sha repo_dir paths options = do
    synced ← ensure_remote_url repo_dir url
    indexed ← has_index repo_dir
    if indexed
        then (verify_repo_state m repo_dir sha >> add_sparse_paths_if_needed repo_dir paths)
        else begin_sparse repo_dir url sha paths options

  abbrev pub fetch_existing : Text → Text → Text → List Text → FetchOptions → Fetch m (Unit {0})
  fetch_existing url sha repo_dir paths options =
      if is_clean options.workspace_state
      then (ensure_remote_url repo_dir url >> update_sparse_checkout repo_dir url sha paths options)
      else fetch_default url sha repo_dir paths options

  -- `repo_dir.exists() and (repo_dir / ".git").exists()`
  abbrev pub is_repository : Text → W → Bool
  is_repository repo_dir w = m.exists repo_dir w && m.exists (m.join repo_dir (chars ".git")) w

  -- In the dirty mode there is only logging.
  unfoldable pub fetch_repo_sparse :
      Text → Text → Text → List Text → FetchOptions → Fetch m (Unit {0})
  unfolding ensure_remote_url verify_repo_state add_sparse_paths_if_needed update_sparse_checkout
      sparse_clone init_sparse_checkout set_sparse_checkout_paths checkout_sha
  fetch_repo_sparse url sha repo_dir paths options =
      if is_dirty options.workspace_state then pure tt else (λ w.
        (if is_repository repo_dir w
            then fetch_existing url sha repo_dir paths options
            else sparse_clone url sha repo_dir paths options)
          w)
