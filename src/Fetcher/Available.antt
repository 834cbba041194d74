-- ===== src/Fetcher/Available.antt =====
-- `ensure_package_available` of roscope/fetcher.py: the lockfile, the installed packages and rosdep.
use roscope.Base.{
  chars, TextMem, split_on, ap, inl, inr, Text, Bool, true, false, ◌&&◌, List, [], ◌∷◌, Option,
  none, some, Result, return, raise, ◌≡◌, refl, sym, subst, ◌∙◌, if◌then◌else◌, lookup,
}
use roscope.Machine.{Machine}
use roscope.Indexer.{Lockfile, PackageLock}
use roscope.Locator.{
  PackageLocator, or_empty_text, drop_empty, add_ament_from_env, locate_install_share,
}
use roscope.Locator.Found.{IsShareIn, locate_install_share-IsShareIn}
use roscope.Rosdep.Install.{Process, RosdepError, rosdep_install}
use roscope.Fetcher.Git.{FetchOptions, FetchError, is_dirty}
use roscope.Fetcher.Packages.{FetchedPackage, fetch_packages, package_path, has_package_xml}

-- `PackageLocator()`
abbrev pub new_locator : PackageLocator
new_locator = record { workspace_src = none; lockfile = none; ament_prefixes = [] }

module _ {W : Type 0} (m : Machine W) (package_name : Text) (options : FetchOptions) where
  -- An exception is logged.
  abbrev pub fetched_or_none : Text → Result FetchError (List FetchedPackage) × W → Option Text × W
  fetched_or_none pkg_path (raise e, w) = (none, w)
  fetched_or_none pkg_path (return fetched, w) =
      (if has_package_xml m pkg_path w then some pkg_path else none, w)

  -- Of a package that the lockfile has.
  unfoldable pub fetch_available : Lockfile → Text → PackageLock → W → Option Text × W
  unfolding fetch_packages
  fetch_available lockfile fetch_dir pkg_lock w =
      let pkg_path = m.resolve (package_path m fetch_dir pkg_lock) w in
      if is_dirty options.workspace_state && has_package_xml m pkg_path w
      then (some pkg_path, w)
      else fetched_or_none pkg_path
          (fetch_packages m lockfile fetch_dir options (package_name ∷ []) w)

  abbrev pub resolved : W → Option Text → Option Text
  resolved w none = none
  resolved w (some path) = some (m.resolve path w)

  -- `locator.locate_install_share(package)`, resolved
  unfoldable pub installed_share : W → Option Text
  unfolding add_ament_from_env locate_install_share
  installed_share w =
      resolved w (locate_install_share m w (add_ament_from_env m new_locator) package_name)

  -- An exception of the installation is ignored.
  abbrev pub share_behind : Result RosdepError (Unit {0}) × Process W → Option Text × Process W
  share_behind (raise e, p) = (none, p)
  share_behind (return u, p) = (installed_share p.disk, p)

  abbrev pub or_install : Bool → Option Text → Process W → Option Text × Process W
  or_install rosdep_fallback (some path) p = (some path, p)
  or_install false none p = (none, p)
  or_install true none p = share_behind (rosdep_install m (package_name ∷ []) p)

  unfoldable pub ensure_installed : Bool → Process W → Option Text × Process W
  unfolding installed_share rosdep_install
  ensure_installed rosdep_fallback p = or_install rosdep_fallback (installed_share p.disk) p

  abbrev pub ensure_by_lock :
      Lockfile → Text → Bool → Option PackageLock → Process W → Option Text × Process W
  ensure_by_lock lockfile fetch_dir rosdep_fallback none p = ensure_installed rosdep_fallback p
  ensure_by_lock lockfile fetch_dir rosdep_fallback (some pkg_lock) p =
      let available = fetch_available lockfile fetch_dir pkg_lock p.disk in
      (available.0, record p { disk = available.1 })

  unfoldable pub ensure_package_available :
      Option Lockfile → Option Text → Bool → Process W → Option Text × Process W
  unfolding ensure_installed fetch_available
  ensure_package_available (some lockfile) (some fetch_dir) rosdep_fallback p =
      ensure_by_lock lockfile fetch_dir rosdep_fallback (lookup package_name lockfile.packages) p
  ensure_package_available none fetch_dir rosdep_fallback p = ensure_installed rosdep_fallback p
  ensure_package_available (some lockfile) none rosdep_fallback p =
      ensure_installed rosdep_fallback p

  some_eq : (a b : Text) → some a ≡ some b → a ≡ b
  some_eq a b e = cc

  -- A path with a package.xml, where a path is returned.
  abbrev IsFetched : Text → Option Text × W → Type 0
  IsFetched pkg_path (none, w) = Unit
  IsFetched pkg_path (some path, w) = (path ≡ pkg_path) × (has_package_xml m path w ≡ true)

  guarded-IsFetched :
      (b : Bool) (pkg_path : Text) (w : W)
      → (b ≡ true → has_package_xml m pkg_path w ≡ true)
      → (next : Option Text × W) → IsFetched pkg_path next
      → IsFetched pkg_path (if b then (some pkg_path, w) else next)
  guarded-IsFetched true pkg_path w h next k = (refl, h refl)
  guarded-IsFetched false pkg_path w h next k = k

  xml-IsFetched :
      (b : Bool) (pkg_path : Text) (w : W)
      → (b ≡ true → has_package_xml m pkg_path w ≡ true)
      → IsFetched pkg_path (if b then some pkg_path else none, w)
  xml-IsFetched true pkg_path w h = (refl, h refl)
  xml-IsFetched false pkg_path w h = tt

  fetched_or_none-IsFetched :
      (pkg_path : Text) (r : Result FetchError (List FetchedPackage) × W)
      → IsFetched pkg_path (fetched_or_none pkg_path r)
  fetched_or_none-IsFetched pkg_path (raise e, w) = tt
  fetched_or_none-IsFetched pkg_path (return fetched, w) =
      xml-IsFetched (has_package_xml m pkg_path w) pkg_path w (λ h. h)

  fetch_available-IsFetched :
      (lockfile : Lockfile) (fetch_dir : Text) (pkg_lock : PackageLock) (w : W)
      → IsFetched
          (m.resolve (package_path m fetch_dir pkg_lock) w)
          (fetch_available lockfile fetch_dir pkg_lock w)
  unfolding fetch_available
  fetch_available-IsFetched lockfile fetch_dir pkg_lock w =
      let pkg_path = m.resolve (package_path m fetch_dir pkg_lock) w in
      let fetched = fetch_packages m lockfile fetch_dir options (package_name ∷ []) w in
      guarded-IsFetched (is_dirty options.workspace_state && has_package_xml m pkg_path w) pkg_path
        w (and_right _ _) (fetched_or_none pkg_path fetched)
        (fetched_or_none-IsFetched pkg_path fetched)
    where
      and_right : (a b : Bool) → (a && b) ≡ true → b ≡ true
      and_right true b h = h
      and_right false b h = cc

  -- For a package that the lockfile has, and with a fetch directory, `ensure_package_available` returns
  -- no path but the one that the lockfile gives it there, and only if there is a package.xml in it when
  -- it returns.
  pub ensure_package_available-locked :
      (lockfile : Lockfile) (fetch_dir : Text) (rosdep_fallback : Bool) (p : Process W)
      (pkg_lock : PackageLock) (path : Text)
      → lookup package_name lockfile.packages ≡ some pkg_lock
      → (ensure_package_available (some lockfile) (some fetch_dir) rosdep_fallback p).0 ≡ some path
      → (path ≡ m.resolve (package_path m fetch_dir pkg_lock) p.disk)
        × (has_package_xml m path
              (ensure_package_available (some lockfile) (some fetch_dir) rosdep_fallback p).1.disk
            ≡ true)
  unfolding ensure_package_available
  ensure_package_available-locked lockfile fetch_dir rosdep_fallback p pkg_lock path has found =
      rw has (
        by_result (fetch_available lockfile fetch_dir pkg_lock p.disk)
          (fetch_available-IsFetched lockfile fetch_dir pkg_lock p.disk) (rw has at found))
    where
      by_result :
          (r : Option Text × W)
          → IsFetched (m.resolve (package_path m fetch_dir pkg_lock) p.disk) r
          → r.0 ≡ some path
          → (path ≡ m.resolve (package_path m fetch_dir pkg_lock) p.disk)
            × (has_package_xml m path r.1 ≡ true)
      by_result (none, w) h e = cc
      by_result (some a, w) h e =
          let same = some_eq a path e in
          (sym same ∙ h.0, subst (λ x. has_package_xml m x w ≡ true) same h.1)

  -- The prefixes of the environment.
  abbrev pub prefix_path : Text
  prefix_path = or_empty_text (lookup (chars "AMENT_PREFIX_PATH") m.environ)

  -- The share directory of the package in a prefix of the environment, where a path is returned.
  abbrev pub IsInstalled : Option Text → W → Type 0
  IsInstalled none w = Unit
  IsInstalled (some path) w =
      (prefix : Text) × TextMem prefix (split_on b':' prefix_path)
      × (let share = m.join (m.join prefix (chars "share")) package_name in
          (m.exists share w ≡ true) × (path ≡ m.resolve share w))

  drop_empty-mem : (x : Text) (xs : List Text) → TextMem x (drop_empty xs) → TextMem x xs
  drop_empty-mem x [] h = h
  drop_empty-mem x ([] ∷ xs) h = inr (drop_empty-mem x xs h)
  drop_empty-mem x ((c ∷ y) ∷ xs) (inl h) = inl h
  drop_empty-mem x ((c ∷ y) ∷ xs) (inr h) = inr (drop_empty-mem x xs h)

  resolved-IsInstalled :
      (w : W) (found : Option Text)
      → ((path : Text)
          → found ≡ some path
          → IsShareIn m w package_name (drop_empty (split_on b':' prefix_path)) path)
      → IsInstalled (resolved w found) w
  resolved-IsInstalled w none h = tt
  resolved-IsInstalled w (some share) h =
      let (prefix, mem, same, there) = h share refl in
      (
        prefix,
        drop_empty-mem prefix _ mem,
        (subst (λ x. m.exists x w ≡ true) same there, ap (λ x. m.resolve x w) same),
      )

  installed_share-IsInstalled : (w : W) → IsInstalled (installed_share w) w
  unfolding installed_share add_ament_from_env
  installed_share-IsInstalled w =
      resolved-IsInstalled w
        (locate_install_share m w (add_ament_from_env m new_locator) package_name)
        (locate_install_share-IsShareIn m w (add_ament_from_env m new_locator) package_name)

  share_behind-IsInstalled :
      (r : Result RosdepError (Unit {0}) × Process W)
      → IsInstalled (share_behind r).0 (share_behind r).1.disk
  share_behind-IsInstalled (raise e, p) = tt
  share_behind-IsInstalled (return u, p) = installed_share-IsInstalled p.disk

  or_install-IsInstalled :
      (rosdep_fallback : Bool) (found : Option Text) (p : Process W)
      → IsInstalled found p.disk
      → IsInstalled
          (or_install rosdep_fallback found p).0
          (or_install rosdep_fallback found p).1.disk
  or_install-IsInstalled rosdep_fallback (some path) p h = h
  or_install-IsInstalled false none p h = tt
  or_install-IsInstalled true none p h =
      share_behind-IsInstalled (rosdep_install m (package_name ∷ []) p)

  -- For a package that the lockfile lacks, a path that `ensure_package_available` returns is, with its
  -- links resolved, that of the package's share directory in a prefix of AMENT_PREFIX_PATH, and that
  -- path exists when it returns, whether rosdep was called or not. A fetch directory is given.
  pub ensure_package_available-installed :
      (lockfile : Lockfile) (fetch_dir : Text) (rosdep_fallback : Bool) (p : Process W)
      (path : Text)
      → lookup package_name lockfile.packages ≡ none
      → (ensure_package_available (some lockfile) (some fetch_dir) rosdep_fallback p).0 ≡ some path
      → (prefix : Text) × TextMem prefix (split_on b':' prefix_path)
        × (let after =
              (ensure_package_available
                (some lockfile)
                (some fetch_dir)
                rosdep_fallback
                p).1.disk in
            let share = m.join (m.join prefix (chars "share")) package_name in
            (m.exists share after ≡ true) × (path ≡ m.resolve share after))
  unfolding ensure_package_available ensure_installed
  ensure_package_available-installed lockfile fetch_dir rosdep_fallback p path lacks found =
      rw lacks (
        subst (λ o. IsInstalled o (ensure_installed rosdep_fallback p).1.disk) (rw lacks at found)
          (or_install-IsInstalled rosdep_fallback (installed_share p.disk) p
            (installed_share-IsInstalled p.disk)))
