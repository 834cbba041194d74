-- ===== src/Locator.antt =====
-- `PackageLocator` of roscope/locator.py.
pub mod Found
pub mod Shares
pub mod Files
mod Tests
use roscope.Base.{
  ℕ, Text, Dict, chars, Bool, true, false, not, ◌&&◌, ◌||◌, List, [], ◌∷◌, ◌++◌, Option, none, some,
  lookup, insert, is_some, text_eq, if◌then◌else◌, split_on,
}
use roscope.Machine.{Machine}
use roscope.Indexer.{Lockfile, PackageLock}

pub record PackageLocator : Type 0 where
  pub workspace_src : Option Text
  pub lockfile : Option Lockfile
  pub ament_prefixes : List Text

abbrev pub drop_empty : List Text → List Text
drop_empty [] = []
drop_empty ([] ∷ prefixes) = drop_empty prefixes
drop_empty ((c ∷ prefix) ∷ prefixes) = (c ∷ prefix) ∷ drop_empty prefixes

abbrev pub or_empty_text : Option Text → Text
or_empty_text none = []
or_empty_text (some t) = t

-- `lockfile.packages.get(package)`, of no lockfile none
abbrev pub lock_of : Text → Option Lockfile → Option PackageLock
lock_of package_name none = none
lock_of package_name (some lockfile) = lookup package_name lockfile.packages

unfoldable pub get_package_lock : PackageLocator → Text → Option PackageLock
get_package_lock loc package_name = lock_of package_name loc.lockfile

unfoldable pub has_package : PackageLocator → Text → Bool
unfolding get_package_lock
has_package loc package_name = is_some (get_package_lock loc package_name)

abbrev pub package_xml : Text
package_xml = chars "package.xml"

abbrev pub share : Text
share = chars "share"

-- The first path of a list of candidates that a test accepts.
abbrev pub first_of : (Text → Bool) → List Text → Option Text
first_of p [] = none
first_of p (path ∷ paths) = if p path then some path else first_of p paths

abbrev pub or_else : Option Text → Option Text → Option Text
or_else none next = next
or_else (some path) next = some path

abbrev pub and_then : Option (Dict Text) → (Dict Text → Option (Dict Text)) → Option (Dict Text)
and_then none next = none
and_then (some result) next = next result

module _ {W : Type 0} (m : Machine W) where
  unfoldable pub add_ament_from_env : PackageLocator → PackageLocator
  unfolding split_on
  add_ament_from_env loc = record loc {
    ament_prefixes =
        loc.ament_prefixes
        ++ drop_empty
            (split_on b':' (or_empty_text (lookup (chars "AMENT_PREFIX_PATH") m.environ)));
  }

  unfoldable pub add_ament_prefix : Text → PackageLocator → PackageLocator
  add_ament_prefix prefix loc = record loc { ament_prefixes = loc.ament_prefixes ++ prefix ∷ [] }

  -- `workspace_src.resolve() if workspace_src else None`
  abbrev pub resolved_src : Option Text → W → Option Text
  resolved_src none w = none
  resolved_src (some workspace_src) w = some (m.resolve workspace_src w)

  abbrev pub init : Option Text → Option Lockfile → List Text → W → PackageLocator
  init workspace_src lockfile ament_prefixes w = record {
    workspace_src = resolved_src workspace_src w;
    lockfile = lockfile;
    ament_prefixes = ament_prefixes;
  }

  abbrev pub with_workspace : Text → W → PackageLocator
  with_workspace workspace_src w = init (some workspace_src) none [] w

  unfoldable pub from_lockfile : Text → Lockfile → W → PackageLocator
  unfolding add_ament_from_env
  from_lockfile workspace_src lockfile w =
      add_ament_from_env (init (some workspace_src) (some lockfile) [] w)

  unfoldable pub from_workspace : Text → W → PackageLocator
  unfolding add_ament_from_env
  from_workspace workspace_src w = add_ament_from_env (init (some workspace_src) none [] w)

  -- `workspace_src / pkg_lock.repo / pkg_lock.path`
  abbrev pub lock_path : Text → PackageLock → Text
  lock_path workspace_src pkg_lock = m.join (m.join workspace_src pkg_lock.repo) pkg_lock.path

  abbrev pub path_in : Option Text → Option PackageLock → Option Text
  path_in none pkg_lock = none
  path_in (some workspace_src) none = none
  path_in (some workspace_src) (some pkg_lock) = some (lock_path workspace_src pkg_lock)

  unfoldable pub resolve_package_share : PackageLocator → Text → Option Text
  unfolding get_package_lock
  resolve_package_share loc package_name =
      path_in loc.workspace_src (get_package_lock loc package_name)

  abbrev pub map_path : (Text → Text) → Option Text → Option Text
  map_path f none = none
  map_path f (some path) = some (f path)

  unfoldable pub resolve_launch_file : PackageLocator → Text → Text → Option Text
  unfolding resolve_package_share
  resolve_launch_file loc package_name launcher =
      map_path (λ pkg_share. m.join (m.join pkg_share (chars "launch")) launcher)
        (resolve_package_share loc package_name)

  unfoldable pub resolve_share_file : PackageLocator → Text → Text → Option Text
  unfolding resolve_package_share
  resolve_share_file loc package_name share_path =
      map_path (λ pkg_share. m.join pkg_share share_path) (resolve_package_share loc package_name)

  -- `prefix / "share" / package`
  abbrev pub share_of : Text → Text → Text
  share_of package_name prefix = m.join (m.join prefix share) package_name

  abbrev pub shares_of : Text → List Text → List Text
  shares_of package_name [] = []
  shares_of package_name (prefix ∷ prefixes) =
      share_of package_name prefix ∷ shares_of package_name prefixes

  abbrev pub files_of : Text → Text → List Text → List Text
  files_of package_name share_path [] = []
  files_of package_name share_path (prefix ∷ prefixes) =
      m.join (share_of package_name prefix) share_path ∷ files_of package_name share_path prefixes

  module _ (w : W) where
    unfoldable pub resolve_install_file : PackageLocator → Text → Text → Option Text
    resolve_install_file loc package_name share_path =
        first_of (λ path. m.exists path w) (files_of package_name share_path loc.ament_prefixes)

    unfoldable pub locate_install_share : PackageLocator → Text → Option Text
    locate_install_share loc package_name =
        first_of (λ path. m.exists path w) (shares_of package_name loc.ament_prefixes)

    -- `path.exists() and (path / "package.xml").exists()`
    abbrev pub is_package : Text → Bool
    is_package path = m.exists path w && m.exists (m.join path package_xml) w

    -- The loop over the entries of an entry, one level deeper.
    unfoldable pub search_deeper : Text → List Text → Option Text
    search_deeper package_name [] = none
    search_deeper package_name (sub_entry ∷ rest) =
        if m.is_dir sub_entry w && is_package (m.join sub_entry package_name)
        then some (m.join sub_entry package_name)
        else search_deeper package_name rest

    abbrev pub deeper_in : Text → Option (List Text) → Option Text
    deeper_in package_name none = none
    deeper_in package_name (some sub_entries) = search_deeper package_name sub_entries

    -- What the body of the loop finds at a directory.
    abbrev pub search_entry : Text → Text → Option Text
    search_entry package_name entry =
        let nested = m.join entry package_name in
        if is_package nested
        then some nested
        else if m.exists (m.join nested package_name) w
        then some (m.join nested package_name)
        else deeper_in package_name (m.list_dir entry w)

    unfoldable pub search_entries : Text → List Text → Option Text
    unfolding search_deeper
    search_entries package_name [] = none
    search_entries package_name (entry ∷ rest) =
        or_else (if m.is_dir entry w then search_entry package_name entry else none)
          (search_entries package_name rest)

    abbrev pub search_listed : Text → Option (List Text) → Option Text
    search_listed package_name none = none
    search_listed package_name (some entries) = search_entries package_name entries

    unfoldable pub search_package_in_workspace : Text → Text → Option Text
    unfolding search_entries
    search_package_in_workspace workspace package_name =
        search_listed package_name (m.list_dir workspace w)

    abbrev pub existing : Option Text → Option Text
    existing none = none
    existing (some path) = if m.exists path w then some path else none

    -- The direct scan of the workspace.
    abbrev pub scan_workspace : Text → Option Text → Option Text
    scan_workspace package_name none = none
    scan_workspace package_name (some ws) =
        if m.exists (m.join (m.join ws package_name) package_name) w
        then some (m.join (m.join ws package_name) package_name)
        else if is_package (m.join ws package_name)
        then some (m.join ws package_name)
        else search_package_in_workspace ws package_name

    unfoldable pub locate_package_share : PackageLocator → Text → Option Text
    unfolding resolve_package_share search_package_in_workspace locate_install_share
    locate_package_share loc package_name =
        or_else (existing (resolve_package_share loc package_name)) (
          or_else (scan_workspace package_name loc.workspace_src)
            (locate_install_share loc package_name))

    -- `result.setdefault(entry.name, str(entry))` for the directories of a listing.
    unfoldable pub add_entries : List Text → Dict Text → Dict Text
    add_entries [] result = result
    add_entries (entry ∷ rest) result = add_entries rest (
        if m.is_dir entry w && not (is_some (lookup (m.name_of entry) result))
        then insert (m.name_of entry) entry result
        else result)

    -- `iterdir` of a directory that cannot be read raises `OSError`: then there is no dictionary.
    abbrev pub add_listed : Option (List Text) → Dict Text → Option (Dict Text)
    add_listed none result = none
    add_listed (some entries) result = some (add_entries entries result)

    -- The loop over the prefixes.
    unfoldable pub add_shares : List Text → Dict Text → Option (Dict Text)
    unfolding add_entries
    add_shares [] result = some result
    add_shares (prefix ∷ prefixes) result =
        and_then
          (if m.is_dir (m.join prefix share) w
            then add_listed (m.list_dir (m.join prefix share) w) result
            else some result)
          (add_shares prefixes)

    unfoldable pub all_install_shares : PackageLocator → Option (Dict Text)
    unfolding add_shares
    all_install_shares loc = add_shares loc.ament_prefixes []

    abbrev pub lock_shares : Text → Dict PackageLock → Dict Text → Dict Text
    lock_shares workspace_src [] result = result
    lock_shares workspace_src ((pkg_name, pkg_lock) ∷ packages) result =
        lock_shares workspace_src packages
          (insert pkg_name (lock_path workspace_src pkg_lock) result)

    abbrev pub source_shares : Option Text → Option Lockfile → Dict Text
    source_shares none lockfile = []
    source_shares (some workspace_src) none = []
    source_shares (some workspace_src) (some lockfile) =
        lock_shares workspace_src lockfile.packages []

    unfoldable pub all_package_shares : PackageLocator → Option (Dict Text)
    unfolding add_shares
    all_package_shares loc =
        add_shares loc.ament_prefixes (source_shares loc.workspace_src loc.lockfile)
