-- ===== src/Discovery/Packages.antt =====
-- The packages of a repository: `discover_packages` of roscope/indexer.py and what it calls.
use roscope.Base.{
  Text, chars, Bool, true, false, ◌&&◌, ◌||◌, List, [], ◌∷◌, ◌++◌, Option, none, some, Result,
  return, raise, if◌then◌else◌, text_eq, strip, splitlines, split_words,
}
use roscope.Base.Stateful.{◌>>=◌, pure, fail}
use roscope.Machine.{Machine, succeeded}
use roscope.Discovery.Xml.{Reader, PackageInfo, XmlError, parse_package_xml}
use roscope.Discovery.Git.{
  GenerateError, no_source_directory, Indexing, run_git, blobless_clone, has_git,
}

-- `s.endswith(suffix)`
abbrev pub has_suffix : Text → Text → Bool
has_suffix suffix [] = text_eq suffix []
has_suffix suffix (c ∷ s) = text_eq suffix (c ∷ s) || has_suffix suffix s

abbrev pub is_package_xml : Text → Bool
is_package_xml path = has_suffix (chars "/package.xml") path || text_eq path (chars "package.xml")

-- The packages found, without those that cannot be parsed.
abbrev pub keep_parsed : Result XmlError PackageInfo → List PackageInfo
keep_parsed (raise e) = []
keep_parsed (return info) = info ∷ []

-- The text behind `path = `
abbrev pub after_prefix : Text → Text → Option Text
after_prefix [] s = some s
after_prefix (p ∷ ps) [] = none
after_prefix (p ∷ ps) (c ∷ s) = if text_eq (p ∷ []) (c ∷ []) then after_prefix ps s else none

-- The commit of a submodule in the first line of `git ls-tree`.
abbrev pub commit_of : List Text → Option Text
commit_of (mode ∷ kind ∷ sha ∷ parts) = if text_eq kind (chars "commit") then some sha else none
commit_of parts = none

abbrev pub first_line : List Text → Text
first_line [] = []
first_line (line ∷ lines) = line

-- `pkg.path = f"{path}/{pkg.path}"`
abbrev pub below : Text → List PackageInfo → List PackageInfo
below path [] = []
below path (pkg ∷ packages) = record pkg { path = path ++ (b'/' ∷ pkg.path) } ∷ below path packages

module _ {W : Type 0} (m : Machine W) (r : Reader) where
  -- What a path and a content add to the packages.
  unfoldable pub parsed_at : Text → Text → List PackageInfo
  unfolding parse_package_xml
  parsed_at path content = keep_parsed (parse_package_xml r content (m.parent path))

  -- The members of an archive with their contents, where they are files.
  unfoldable pub discover_from_tar : List (Text × Option Text) → List PackageInfo
  unfolding parsed_at
  discover_from_tar [] = []
  discover_from_tar ((path, none) ∷ members) = discover_from_tar members
  discover_from_tar ((path, some content) ∷ members) =
      (if is_package_xml path then parsed_at path content else []) ++ discover_from_tar members

  -- The loop over the lines of `git ls-tree`.
  unfoldable pub show_all : Text → Text → List Text → Indexing m (List PackageInfo)
  unfolding run_git parsed_at
  show_all repo_dir sha [] = pure []
  show_all repo_dir sha (line ∷ lines) = do
    found ←
        (if is_package_xml line
          then (do
            content ← run_git m false (chars "show" ∷ (sha ++ (b':' ∷ line)) ∷ []) (some repo_dir)
            pure (if succeeded content then parsed_at line content.stdout else []))
          else pure [])
    rest ← show_all repo_dir sha lines
    pure (found ++ rest)

  unfoldable pub discover_from_git_objects : Text → Text → Indexing m (List PackageInfo)
  unfolding run_git show_all splitlines
  discover_from_git_objects repo_dir sha = do
    result ←
        run_git m true (chars "ls-tree" ∷ chars "-r" ∷ chars "--name-only" ∷ sha ∷ [])
          (some repo_dir)
    show_all repo_dir sha (splitlines result.stdout)

  -- `except RoscopeError`
  abbrev pub or_no_packages : Indexing m (List PackageInfo) → Indexing m (List PackageInfo)
  or_no_packages method w = (return (listed (method w).0), (method w).1)
    where
      listed : Result GenerateError (List PackageInfo) → List PackageInfo
      listed (raise e) = []
      listed (return packages) = packages

  abbrev pub discover_in_submodule : Text → Text → Text → Indexing m (List PackageInfo)
  discover_in_submodule repo_dir path submodule_sha = do
    fetched ←
        run_git m false (chars "fetch" ∷ chars "--depth=1" ∷ chars "origin" ∷ submodule_sha ∷ [])
          (some (m.join repo_dir path))
    packages ← or_no_packages (discover_from_git_objects (m.join repo_dir path) submodule_sha)
    pure (below path packages)

  abbrev pub discover_commit : Text → Text → Option Text → Indexing m (List PackageInfo)
  discover_commit repo_dir path none = pure []
  discover_commit repo_dir path (some submodule_sha) = λ w.
      (if has_git m (m.join repo_dir path) w
          then discover_in_submodule repo_dir path submodule_sha
          else pure [])
        w

  -- Of a line of `.gitmodules` with a path. The variable `current_path` is `None` again behind each
  -- line.
  abbrev pub discover_submodule : Text → Text → Option Text → Indexing m (List PackageInfo)
  discover_submodule repo_dir sha none = pure []
  discover_submodule repo_dir sha (some path) = do
    ls_result ← run_git m false (chars "ls-tree" ∷ sha ∷ path ∷ []) (some repo_dir)
    if succeeded ls_result
        then discover_commit repo_dir path
            (commit_of (split_words m.unicode (first_line (splitlines ls_result.stdout))))
        else pure []

  -- The loop over the lines.
  unfoldable pub discover_all : Text → Text → List Text → Indexing m (List PackageInfo)
  unfolding run_git discover_from_git_objects splitlines split_words strip
  discover_all repo_dir sha [] = pure []
  discover_all repo_dir sha (line ∷ lines) = do
    found ← discover_submodule repo_dir sha (after_prefix (chars "path = ") (strip m.unicode line))
    rest ← discover_all repo_dir sha lines
    pure (found ++ rest)

  unfoldable pub discover_from_submodules : Text → Text → Indexing m (List PackageInfo)
  unfolding run_git discover_all splitlines
  discover_from_submodules repo_dir sha = do
    result ← run_git m false (chars "show" ∷ (sha ++ chars ":.gitmodules") ∷ []) (some repo_dir)
    if succeeded result then discover_all repo_dir sha (splitlines result.stdout) else pure []

  unfoldable pub discover_from_existing_repo :
      Text → Text → Text → Bool → Indexing m (List PackageInfo)
  unfolding run_git discover_from_git_objects discover_from_submodules
  discover_from_existing_repo repo_dir url sha recurse_submodules = do
    result ←
        run_git m false (chars "fetch" ∷ chars "--depth=1" ∷ chars "--" ∷ url ∷ sha ∷ [])
          (some repo_dir)
    fetched ←
        (if succeeded result
          then pure result
          else run_git m false (chars "fetch" ∷ chars "--depth=1" ∷ chars "--" ∷ url ∷ [])
              (some repo_dir))
    packages ← discover_from_git_objects repo_dir sha
    sub_packages ← (if recurse_submodules then discover_from_submodules repo_dir sha else pure [])
    pure (packages ++ sub_packages)

  abbrev pub is_checkout : Option Text → W → Bool
  is_checkout none w = false
  is_checkout (some repo_dir) w = m.exists repo_dir w && has_git m repo_dir w

  abbrev pub discover_cloned : Text → Text → Bool → Option Text → Indexing m (List PackageInfo)
  discover_cloned url sha recurse_submodules none = fail no_source_directory
  discover_cloned url sha recurse_submodules (some repo_dir) = do
    cloned ← blobless_clone m url repo_dir
    discover_from_existing_repo repo_dir url sha recurse_submodules

  abbrev pub discover_existing : Text → Text → Bool → Option Text → Indexing m (List PackageInfo)
  discover_existing url sha recurse_submodules none = pure []
  discover_existing url sha recurse_submodules (some repo_dir) =
      discover_from_existing_repo repo_dir url sha recurse_submodules

  -- `tarfile`, with the contents decoded
  module _ (tar_members : Text → List (Text × Option Text)) where
    abbrev pub discover_remote : Text → Text → Option Text → Indexing m (List PackageInfo)
    discover_remote url sha repo_dir = do
      result ← run_git m false (chars "archive" ∷ chars "--remote" ∷ url ∷ sha ∷ []) none
      if succeeded result
          then pure (discover_from_tar (tar_members result.stdout))
          else discover_cloned url sha false repo_dir

    unfoldable pub discover_packages :
        Text → Text → Option Text → Bool → Indexing m (List PackageInfo)
    unfolding run_git discover_from_existing_repo discover_from_tar blobless_clone
    discover_packages url sha repo_dir recurse_submodules w =
        (if is_checkout repo_dir w
            then discover_existing url sha recurse_submodules repo_dir
            else if recurse_submodules
            then discover_cloned url sha true repo_dir
            else discover_remote url sha repo_dir)
          w
