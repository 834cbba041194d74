-- ===== src/Fetcher/Verified.antt =====
-- `fetch_repo_sparse` of roscope/fetcher.py in the default mode, on a repository that is on disk.
use roscope.Base.{
  Text, Bool, true, false, not, List, Option, none, some, Result, return, raise, ◌≡◌, refl, inl,
  inr, Bool-cases, if◌then◌else◌, text_eq, text_eq_iff, ◌∙◌, sym, ap,
}
use roscope.Base.Stateful.{continue, ◌>>=◌, ◌>>◌, pure, fail, Keeps, >>=-Keeps, >>=-return}
use roscope.Machine.{Machine, Completed, succeeded}
use roscope.Fetcher.Git.{
  rev_parse_head, status_porcelain, default_state, FetchOptions, FetchError, unexpected_state,
  completed, run_git, get_current_sha, is_working_tree_dirty, describe_repo_state,
  verify_repo_state, Fetch,
}
use roscope.Fetcher.Repo.{
  add_sparse_paths_if_needed, has_index, ensure_remote_url, is_repository, fetch_repo_sparse,
}
use roscope.Fetcher.Laws.{GitLaws, LeavesTree, LeavesHead, leaves_tree, prints_head, prints_status}
use roscope.Fetcher.Frame.{
  get_current_sha-Keeps, verify_repo_state-Keeps, ensure_remote_url-Keeps,
  add_sparse_paths_if_needed-Keeps,
}

module _ {W : Type 0} (m : Machine W) (repo_dir : Text) (laws : GitLaws m repo_dir) where
  completed-return :
      (args : List Text) (o : Option Completed) (result : Completed)
      → completed m true args o ≡ return result
      → (o ≡ some result) × (succeeded result ≡ true)
  completed-return args none result e = cc
  completed-return args (some r) result e = elim (Bool-cases (succeeded r)) [
    | inl ok ↦ let same = value (rw ok at e) in (ap some same, rw (sym same) ok)
    | inr failed ↦ absurd (clash (rw failed at e))
  ]
    where
      value : ◌≡◌ {A = Result FetchError Completed} (return r) (return result) → r ≡ result
      value h = cc

      clash : {x : FetchError} → ◌≡◌ {A = Result FetchError Completed} (raise x) (return result) → ⊥
      clash h = cc

  return_eq : {A : Type 0} (a b : A) → ◌≡◌ {A = Result FetchError A} (return a) (return b) → a ≡ b
  return_eq a b e = cc

  get_current_sha-head :
      (w : W) (sha : Text) → (get_current_sha m repo_dir w).0 ≡ return sha → sha ≡ laws.head w
  unfolding get_current_sha run_git
  get_current_sha-head w sha e =
      let (result, ran, same) =
        >>=-return (run_git m true rev_parse_head (some repo_dir)) _ w sha e in
      let (found, ok) = completed-return rev_parse_head _ result ran in
      sym (return_eq _ sha same) ∙ laws.rev_parse w result found ok

  is_working_tree_dirty-status :
      (w : W) (dirty : Bool)
      → (is_working_tree_dirty m repo_dir w).0 ≡ return dirty
      → dirty ≡ not (laws.is_unchanged w)
  unfolding is_working_tree_dirty run_git
  is_working_tree_dirty-status w dirty e =
      let (result, ran, same) =
        >>=-return (run_git m true status_porcelain (some repo_dir)) _ w dirty e in
      let (found, ok) = completed-return status_porcelain _ result ran in
      sym (return_eq _ dirty same) ∙ ap not (laws.status w result found ok)

  decided :
      (dirty : Bool) (current sha : Text) (w : W)
      → ◌≡◌ {A = Result FetchError Bool}
          ((if dirty
              then (run_git m false status_porcelain (some repo_dir) >> pure true)
              else pure (not (text_eq current sha)))
            w).0
          (return false)
      → (dirty ≡ false) × (current ≡ sha)
  decided true current sha w e =
      let (r, ran, clash) =
        >>=-return (run_git m false status_porcelain (some repo_dir)) (λ _. pure true) w false e in
      absurd (true_false (return_eq true false clash))
    where
      true_false : true ≡ false → ⊥
      true_false h = cc
  decided false current sha w e =
      (refl, (text_eq_iff current sha).0 (unnegated (text_eq current sha) (return_eq _ _ e)))
    where
      unnegated : (b : Bool) → not b ≡ false → b ≡ true
      unnegated true h = refl
      unnegated false h = cc

  -- A repository that is not described as diverging is at the commit, and unchanged.
  describe_repo_state-clear :
      (sha : Text) (w : W)
      → (describe_repo_state m repo_dir sha w).0 ≡ return false
      → (laws.head w ≡ sha) × (laws.is_unchanged w ≡ true)
  unfolding describe_repo_state Keeps
  describe_repo_state-clear sha w e =
      let (current, got, e1) = >>=-return (get_current_sha m repo_dir) _ w false e in
      let (dirty, asked, e2) =
        >>=-return (is_working_tree_dirty m repo_dir) _ (get_current_sha m repo_dir w).1 false e1 in
      let (not_dirty, same) = decided dirty current sha _ e2 in
      (
        sym (get_current_sha-head w current got) ∙ same,
        sym (get_current_sha-Keeps m repo_dir laws.is_unchanged LeavesTree laws.tree prints_head w)
            ∙ negated _ (sym (is_working_tree_dirty-status _ dirty asked) ∙ not_dirty),
      )
    where
      negated : (b : Bool) → not b ≡ false → b ≡ true
      negated true h = refl
      negated false h = cc

  verify_repo_state-clear :
      (sha : Text) (w : W)
      → (verify_repo_state m repo_dir sha w).0 ≡ return tt
      → (laws.head w ≡ sha) × (laws.is_unchanged w ≡ true)
  unfolding verify_repo_state
  verify_repo_state-clear sha w e =
      let (described, got, e1) = >>=-return (describe_repo_state m repo_dir sha) _ w tt e in
      describe_repo_state-clear sha w (got ∙ ap return (passed described _ e1))
    where
      passed :
          (b : Bool) (w' : W)
          → ◌≡◌ {A = Result FetchError (Unit {0})}
              ((if b then fail (unexpected_state repo_dir) else pure tt) w').0
              (return tt)
          → b ≡ false
      passed true w' h = cc
      passed false w' h = refl

  -- The index of the repository is on disk when the remote has been synchronised.
  abbrev pub IsIndexed : Text → W → Type 0
  IsIndexed url w = (has_index m repo_dir (ensure_remote_url m repo_dir url w).1).0 ≡ return true

  verify_and_add-head :
      (sha : Text) (paths : List Text)
      → Keeps laws.head
          (verify_repo_state m repo_dir sha >> add_sparse_paths_if_needed m repo_dir paths)
  verify_and_add-head sha paths =
      >>=-Keeps laws.head _ _
        (verify_repo_state-Keeps m repo_dir laws.head LeavesHead laws.unmoved sha
          (leaves_tree prints_head) (leaves_tree prints_status))
        (λ u.
          add_sparse_paths_if_needed-Keeps m repo_dir laws.head LeavesHead laws.unmoved paths
            (λ args h. h))

  abbrev check_and_add : Text → List Text → Fetch m (Unit {0})
  check_and_add sha paths =
      verify_repo_state m repo_dir sha >> add_sparse_paths_if_needed m repo_dir paths

  indexed_continue :
      (r : Result FetchError (Unit {0})) (f g : Fetch m (Unit {0})) (w : W)
      → (has_index m repo_dir w).0 ≡ return true
      → continue r (λ _. has_index m repo_dir >>= λ indexed. if indexed then f else g) w
        ≡ continue r (λ _. f) w
  indexed_continue (raise e) f g w indexed = refl
  indexed_continue (return u) f g w indexed = rw (return_eq _ true indexed) refl

  -- On such a repository the default fetch synchronises the remote, checks and adds the paths.
  fetch_repo_sparse-checks :
      (url sha : Text) (paths : List Text) (options : FetchOptions) (w : W)
      → options.workspace_state ≡ default_state
      → is_repository m repo_dir w ≡ true
      → IsIndexed url w
      → fetch_repo_sparse m url sha repo_dir paths options w
        ≡ (ensure_remote_url m repo_dir url >> check_and_add sha paths) w
  unfolding fetch_repo_sparse
  fetch_repo_sparse-checks url sha paths options w default present indexed = rw default (
      rw present (
        indexed_continue (ensure_remote_url m repo_dir url w).0 (check_and_add sha paths) _ _
          indexed))

  checked-head :
      (url sha : Text) (paths : List Text)
      → Keeps laws.head (ensure_remote_url m repo_dir url >>= λ _. check_and_add sha paths)
  checked-head url sha paths =
      >>=-Keeps laws.head (ensure_remote_url m repo_dir url) (λ _. check_and_add sha paths)
        (ensure_remote_url-Keeps m repo_dir laws.head LeavesHead laws.unmoved url
          (λ args. leaves_tree))
        (λ u. verify_and_add-head sha paths)

  -- In the default mode, on a repository that is on disk with its index, HEAD is not moved, whether
  -- the fetch returns or raises.
  fetch_repo_sparse-default_head :
      (url sha : Text) (paths : List Text) (options : FetchOptions) (w : W)
      → options.workspace_state ≡ default_state
      → is_repository m repo_dir w ≡ true
      → IsIndexed url w
      → laws.head (fetch_repo_sparse m url sha repo_dir paths options w).1 ≡ laws.head w
  unfolding Keeps
  fetch_repo_sparse-default_head url sha paths options w default present indexed =
      rw (fetch_repo_sparse-checks url sha paths options w default present indexed)
        (checked-head url sha paths w)

  -- For a git that keeps the laws, in the default mode, on a repository that is on disk with its index:
  -- a fetch that returns found HEAD at the commit of the lockfile and nothing changed in the working
  -- tree, and HEAD is still at that commit.
  pub fetch_repo_sparse-default_verified :
      (url sha : Text) (paths : List Text) (options : FetchOptions) (w : W)
      → options.workspace_state ≡ default_state
      → is_repository m repo_dir w ≡ true
      → IsIndexed url w
      → (fetch_repo_sparse m url sha repo_dir paths options w).0 ≡ return tt
      → (laws.head w ≡ sha)
        × (laws.is_unchanged w ≡ true)
        × (laws.head (fetch_repo_sparse m url sha repo_dir paths options w).1 ≡ sha)
  unfolding Keeps
  fetch_repo_sparse-default_verified url sha paths options w default present indexed returned =
      let synced = ensure_remote_url m repo_dir url in
      let (u, got, e1) =
        >>=-return synced (λ _. check_and_add sha paths) w tt
          (rw (fetch_repo_sparse-checks url sha paths options w default present indexed) at
            returned) in
      let (v, passed, e2) =
        >>=-return (verify_repo_state m repo_dir sha)
          (λ _. add_sparse_paths_if_needed m repo_dir paths) (synced w).1 tt e1 in
      let (at_commit, unchanged) = verify_repo_state-clear sha (synced w).1 passed in
      let same =
        ensure_remote_url-Keeps m repo_dir laws.head LeavesHead laws.unmoved url
          (λ args. leaves_tree) w in
      (
        sym same ∙ at_commit,
        sym (
              ensure_remote_url-Keeps m repo_dir laws.is_unchanged LeavesTree laws.tree url
                (λ args h. h) w)
            ∙ unchanged,
        fetch_repo_sparse-default_head url sha paths options w default present indexed
            ∙ (sym same ∙ at_commit),
      )
