-- ===== src/Discovery/Git.antt =====
-- The git commands of roscope/indexer.py, and the resolution of versions.
use roscope.Base.{
  ℕ, Text, chars, Bool, true, false, not, ◌&&◌, ◌||◌, List, [], ◌∷◌, Option, none, some, Result,
  return, raise, if◌then◌else◌, text_eq, strip, length, ◌==◌, leb, all,
}
use roscope.Base.Stateful.{Stateful, ◌>>=◌, pure, fail}
use roscope.Machine.{Machine, Completed, succeeded}

-- `GitError` of a command that was not run or failed, and without a source directory; the `OSError`
-- of `mkdir`; and the `RoscopeError` of a package that is found twice, with its repositories.
pub data GenerateError : Type 0 where
  git_not_run os_error no_source_directory : GenerateError
  git_failed : List Text → GenerateError
  duplicate_package : Text → Text → Text → GenerateError

abbrev pub is_hex : ℕ → Bool
is_hex c = leb b'0' c && leb c b'9' || leb b'a' c && leb c b'f' || leb b'A' c && leb c b'F'

abbrev pub is_full_sha : Text → Bool
is_full_sha version = length version == 40 && all is_hex version

module _ {W : Type 0} (m : Machine W) where
  abbrev pub Indexing : Type 0 → Type 0
  Indexing = Stateful W GenerateError

  abbrev pub completed : Bool → List Text → Option Completed → Result GenerateError Completed
  completed check args none = raise git_not_run
  completed check args (some result) =
      if check && not (succeeded result) then raise (git_failed args) else return result

  -- `_run_git` and `_run_git_bytes`
  unfoldable pub run_git : Bool → List Text → Option Text → Indexing Completed
  run_git check args cwd w =
      let ran = m.run (chars "git") args cwd w in (completed check args ran.0, ran.1)

  unfoldable pub resolve_version_local : Text → Text → Text → Indexing Text
  unfolding run_git strip
  resolve_version_local repo_dir url version_ref = do
    fetched ← run_git true (chars "fetch" ∷ chars "--" ∷ url ∷ version_ref ∷ []) (some repo_dir)
    result ← run_git true (chars "rev-parse" ∷ chars "FETCH_HEAD" ∷ []) (some repo_dir)
    pure (strip m.unicode result.stdout)

  -- `repo_dir.parent.mkdir` where that does not exist
  unfoldable pub make_parent : Text → Indexing (Unit {0})
  make_parent repo_dir w =
      if m.exists (m.parent repo_dir) w
      then (return tt, w)
      else (let made = m.make_parent repo_dir w in
          (if made.0 then return tt else raise os_error, made.1))

  unfoldable pub blobless_clone : Text → Text → Indexing (Unit {0})
  unfolding run_git make_parent
  blobless_clone url repo_dir = do
    made ← make_parent repo_dir
    cloned ←
        run_git true
          (chars "clone" ∷ chars "--filter=blob:none" ∷ chars "--no-checkout" ∷ url ∷ repo_dir ∷ [])
          none
    pure tt

  -- The address of `origin`, where it can be asked for.
  abbrev pub sync_origin : Text → Text → Completed → Indexing (Unit {0})
  sync_origin repo_dir expected_url result =
      if succeeded result
      then (if text_eq (strip m.unicode result.stdout) expected_url then pure tt else (do
        set ←
            run_git true (chars "remote" ∷ chars "set-url" ∷ chars "origin" ∷ expected_url ∷ [])
              (some repo_dir)
        pure tt))
      else pure tt

  -- Only of a partial clone.
  unfoldable pub ensure_remote_url : Text → Text → Indexing (Unit {0})
  unfolding run_git strip
  ensure_remote_url repo_dir expected_url = do
    result ←
        run_git false
          (chars "config" ∷ chars "--get" ∷ chars "remote.origin.partialclonefilter" ∷ [])
          (some repo_dir)
    if succeeded result
        then (do
          origin ←
              run_git false (chars "remote" ∷ chars "get-url" ∷ chars "origin" ∷ []) (some repo_dir)
          sync_origin repo_dir expected_url origin)
        else pure tt

  -- `(repo_dir / ".git").exists()`
  abbrev pub has_git : Text → W → Bool
  has_git repo_dir w = m.exists (m.join repo_dir (chars ".git")) w

  abbrev pub resolve_in : Text → Text → Text → Indexing Text
  resolve_in url version repo_dir = do
    ready ← (λ w.
        (if has_git repo_dir w then ensure_remote_url repo_dir url else blobless_clone url repo_dir)
          w)
    resolve_version_local repo_dir url version

  abbrev pub resolve_with : Text → Text → Option Text → Indexing Text
  resolve_with url version none = fail no_source_directory
  resolve_with url version (some repo_dir) = resolve_in url version repo_dir

  -- A full SHA is taken as it is.
  unfoldable pub resolve_version_from_repo : Text → Text → Option Text → Indexing Text
  unfolding resolve_version_local blobless_clone ensure_remote_url
  resolve_version_from_repo url version repo_dir =
      if is_full_sha version then pure version else resolve_with url version repo_dir
