-- ===== src/Fetcher/Frame.antt =====
-- Which git commands the functions of roscope/fetcher.py that a default fetch calls run.
use roscope.Base.{Text, chars, Bool, true, false, List, [], ◌∷◌, some, ◌≡◌}
use roscope.Base.Stateful.{Keeps, >>=-Keeps, if-Keeps, pure-Keeps, fail-Keeps}
use roscope.Machine.{Machine}
use roscope.Fetcher.Git.{
  rev_parse_head, status_porcelain, Fetch, run_git, git, get_current_sha, is_working_tree_dirty,
  is_sparse_checkout_enabled, get_sparse_checkout_paths, add_sparse_checkout_paths, absent_from,
  describe_repo_state, verify_repo_state,
}
use roscope.Fetcher.Laws.{
  LeavesTree, prints_sparse, prints_url, adds_url, sets_url, LeavesHead, leaves_tree, lists_sparse,
  adds_sparse, reapplies_sparse,
}
use roscope.Fetcher.Repo.{
  when, add_and_reapply, add_sparse_paths_if_needed, remote_command, ensure_remote_url,
}

module _ {W : Type 0} (m : Machine W) (repo_dir : Text) {X : Type 0} (view : W → X)
    (allowed : List Text → Type 0)
    (keeps : (args : List Text) (w : W)
      → allowed args
      → view (m.run (chars "git") args (some repo_dir) w).1 ≡ view w) where
  pub run_git-Keeps :
      (check : Bool) (args : List Text)
      → allowed args
      → Keeps view (run_git m check args (some repo_dir))
  unfolding Keeps run_git
  run_git-Keeps check args h w = keeps args w h

  pub git-Keeps : (args : List Text) → allowed args → Keeps view (git m args repo_dir)
  git-Keeps args h = >>=-Keeps view _ _ (run_git-Keeps true args h) (λ r. pure-Keeps view _ _)

  pub when-Keeps : (b : Bool) (n : Fetch m (Unit {0})) → Keeps view n → Keeps view (when m b n)
  when-Keeps true n h = h
  when-Keeps false n h = pure-Keeps view _ _

  pub get_current_sha-Keeps : allowed rev_parse_head → Keeps view (get_current_sha m repo_dir)
  unfolding get_current_sha
  get_current_sha-Keeps h = >>=-Keeps view _ _ (run_git-Keeps true _ h) (λ r. pure-Keeps view _ _)

  pub is_working_tree_dirty-Keeps :
      allowed status_porcelain → Keeps view (is_working_tree_dirty m repo_dir)
  unfolding is_working_tree_dirty
  is_working_tree_dirty-Keeps h =
      >>=-Keeps view _ _ (run_git-Keeps true _ h) (λ r. pure-Keeps view _ _)

  pub describe_repo_state-Keeps :
      (sha : Text)
      → allowed rev_parse_head
      → allowed status_porcelain
      → Keeps view (describe_repo_state m repo_dir sha)
  unfolding describe_repo_state
  describe_repo_state-Keeps sha h k = >>=-Keeps view _ _ (get_current_sha-Keeps h) (λ current.
      >>=-Keeps view _ _ (is_working_tree_dirty-Keeps k) (λ dirty.
        if-Keeps view dirty _ _
          (>>=-Keeps view _ _ (run_git-Keeps false _ k) (λ r. pure-Keeps view _ _))
          (pure-Keeps view _ _)))

  pub verify_repo_state-Keeps :
      (sha : Text)
      → allowed rev_parse_head
      → allowed status_porcelain
      → Keeps view (verify_repo_state m repo_dir sha)
  unfolding verify_repo_state
  verify_repo_state-Keeps sha h k =
      >>=-Keeps view _ _ (describe_repo_state-Keeps sha h k)
        (λ described. if-Keeps view described _ _ (fail-Keeps view _ _) (pure-Keeps view _ _))

  pub ensure_remote_url-Keeps :
      (url : Text)
      → ((args : List Text) → LeavesTree args → allowed args)
      → Keeps view (ensure_remote_url m repo_dir url)
  unfolding ensure_remote_url
  ensure_remote_url-Keeps url h =
      >>=-Keeps view _ _ (run_git-Keeps false _ (h _ prints_url)) (λ r. when-Keeps _ _ (set_url _))
    where
      set_url : (current : Text) → Keeps view (git m (remote_command m current url) repo_dir)
      set_url [] = git-Keeps _ (h _ (adds_url url))
      set_url (c ∷ current) = git-Keeps _ (h _ (sets_url url))

  pub add_sparse_paths_if_needed-Keeps :
      (paths : List Text)
      → ((args : List Text) → LeavesHead args → allowed args)
      → Keeps view (add_sparse_paths_if_needed m repo_dir paths)
  unfolding add_sparse_paths_if_needed is_sparse_checkout_enabled get_sparse_checkout_paths
      add_sparse_checkout_paths
  add_sparse_paths_if_needed-Keeps paths h =
      >>=-Keeps view _ _
        (>>=-Keeps view _ _ (run_git-Keeps false _ (h _ (leaves_tree prints_sparse)))
          (λ r. pure-Keeps view _ _))
        (λ enabled. when-Keeps enabled _ (
          >>=-Keeps view _ _
            (>>=-Keeps view _ _ (run_git-Keeps false _ (h _ lists_sparse))
              (λ r. pure-Keeps view _ _))
            (λ current. added (absent_from m current paths))))
    where
      added : (to_add : List Text) → Keeps view (add_and_reapply m repo_dir to_add)
      added [] = pure-Keeps view _ _
      added (path ∷ to_add) =
          >>=-Keeps view _ _ (git-Keeps _ (h _ (adds_sparse (path ∷ to_add))))
            (λ u. git-Keeps _ (h _ reapplies_sparse))
