-- ===== src/Rosdep/Install.antt =====
-- The calls of rosdep, apt-get and pip in roscope/rosdep.py, with the variables of the module that
-- remember their results.
use roscope.Base.{
  Text, chars, Bool, true, false, ◌&&◌, ◌||◌, List, [], ◌∷◌, ◌++◌, Option, none, some, return,
  if◌then◌else◌, contains_text, starts_with, splitlines, split_on, rstrip, lookup, sorted,
}
use roscope.Base.Stateful.{Stateful, ◌>>=◌, ◌>>◌, pure, fail}
use roscope.Machine.{Machine, Completed, succeeded}
use roscope.Rosdep.{ResolvedDeps, no_deps, drop_text, add_unresolved, parse_rosdep_resolve}

-- `_rosdep_updated`, `_installed_packages_cache` and `_break_system_packages`, and the machine.
pub record Process (W : Type 0) : Type 0 where
  pub is_updated : Bool
  pub installed_cache : Option (List Text)
  pub break_system : Option Bool
  pub disk : W

-- The errors: `ProcessExecutionError` by its cause, and the `OSError` of a missing installer.
pub data RosdepError : Type 0 where
  distro_not_set rosdep_not_run apt_failed pip_failed os_error : RosdepError
  not_resolved : List Text → RosdepError

-- `part in s`
abbrev pub has_part : Text → Text → Bool
has_part part [] = starts_with part []
has_part part (c ∷ s) = starts_with part (c ∷ s) || has_part part s

abbrev pub is_nonempty : List Text → Bool
is_nonempty [] = false
is_nonempty (x ∷ xs) = true

-- `names.add(name)` and `set(names)`
abbrev pub add_name : Text → List Text → List Text
add_name name names = if contains_text names name then names else names ++ name ∷ []

abbrev pub distinct_onto : List Text → List Text → List Text
distinct_onto [] found = found
distinct_onto (name ∷ names) found = distinct_onto names (add_name name found)

-- `k for k in keys if k not in installed`
abbrev pub not_in : List Text → List Text → List Text
not_in installed [] = []
not_in installed (key ∷ keys) =
    if contains_text installed key then not_in installed keys else key ∷ not_in installed keys

abbrev pub nonempty_text : Option Text → Option Text
nonempty_text none = none
nonempty_text (some []) = none
nonempty_text (some (c ∷ s)) = some (c ∷ s)

abbrev pub no_rule : Text
no_rule = chars "ERROR: no rosdep rule for '"

abbrev pub add_no_rule : Text → ResolvedDeps → ResolvedDeps
add_no_rule key result =
    if contains_text result.unresolved key then result else add_unresolved key result

-- The keys that the lines of the error output name.
abbrev pub read_errors : List Text → ResolvedDeps → ResolvedDeps
read_errors [] result = result
read_errors (line ∷ lines) result = read_errors lines (
    if starts_with no_rule line
    then add_no_rule (rstrip b'\'' (drop_text no_rule line)) result
    else result)

module _ {W : Type 0} (m : Machine W) where
  abbrev pub Rosdep : Type 0 → Type 0
  Rosdep = Stateful (Process W) RosdepError

  -- `subprocess.run`, and `none` where it raises `OSError`
  abbrev pub run_process : Text → List Text → Rosdep (Option Completed)
  run_process program args p =
      let ran = m.run program args none p.disk in (return ran.0, record p { disk = ran.1 })

  abbrev pub help_has_option : Option Completed → Bool
  help_has_option none = false
  help_has_option (some result) = has_part (chars "--break-system-packages") result.stdout

  abbrev pub remember_break : Bool → Rosdep Bool
  remember_break b p = (return b, record p { break_system = some b })

  abbrev pub known_break : Option Bool → Rosdep Bool
  known_break (some b) = pure b
  known_break none = do
    result ← run_process (chars "pip") (chars "install" ∷ chars "--help" ∷ [])
    remember_break (help_has_option result)

  unfoldable pub pip_supports_break_system_packages : Rosdep Bool
  pip_supports_break_system_packages p = known_break p.break_system p

  abbrev pub set_updated : Rosdep (Unit {0})
  set_updated p = (return tt, record p { is_updated = true })

  -- An `OSError` is ignored here.
  unfoldable pub ensure_rosdep_updated : Rosdep (Unit {0})
  ensure_rosdep_updated p =
      (if p.is_updated
          then pure tt
          else (do result ← run_process (chars "rosdep") (chars "update" ∷ []); set_updated))
        p

  abbrev pub ros_distro : Option Text
  ros_distro = nonempty_text (lookup (chars "ROS_DISTRO") m.environ)

  abbrev pub resolved_from : List Text → Option Completed → Rosdep ResolvedDeps
  resolved_from keys none = fail rosdep_not_run
  resolved_from keys (some result) =
      let resolved = parse_rosdep_resolve m.unicode result.stdout keys in
      pure (if succeeded result then resolved else read_errors (splitlines result.stderr) resolved)

  abbrev pub resolve_for : List Text → Option Text → Rosdep ResolvedDeps
  resolve_for keys none = fail distro_not_set
  resolve_for keys (some distro) = do
    updated ← ensure_rosdep_updated
    result ← run_process (chars "rosdep") (chars "resolve" ∷ chars "--rosdistro" ∷ distro ∷ keys)
    resolved_from keys result

  unfoldable pub rosdep_resolve : List Text → Rosdep ResolvedDeps
  unfolding ensure_rosdep_updated parse_rosdep_resolve splitlines
  rosdep_resolve [] = pure no_deps
  rosdep_resolve (key ∷ keys) = resolve_for (key ∷ keys) ros_distro

  -- The packages in a listing, and none where the directory cannot be read.
  abbrev pub add_packages : W → Option (List Text) → List Text → List Text
  add_packages w none names = names
  add_packages w (some []) names = names
  add_packages w (some (entry ∷ entries)) names = add_packages w (some entries) (
      if m.is_dir entry w && m.exists (m.join entry (chars "package.xml")) w
      then add_name (m.name_of entry) names
      else names)

  -- The loop over `AMENT_PREFIX_PATH`
  unfoldable pub ament_packages : W → List Text → List Text → List Text
  ament_packages w [] names = names
  ament_packages w ([] ∷ prefixes) names = ament_packages w prefixes names
  ament_packages w ((c ∷ prefix) ∷ prefixes) names =
      let share = m.join (c ∷ prefix) (chars "share") in
      ament_packages w prefixes
        (if m.is_dir share w then add_packages w (m.list_dir share w) names else names)

  -- The loop over `ROS_PACKAGE_PATH`
  unfoldable pub catkin_packages : W → List Text → List Text → List Text
  catkin_packages w [] names = names
  catkin_packages w ([] ∷ dirs) names = catkin_packages w dirs names
  catkin_packages w ((c ∷ d) ∷ dirs) names = catkin_packages w dirs (
      add_packages w (m.list_dir (c ∷ d) w) (
        if m.exists (m.join (c ∷ d) (chars "package.xml")) w
        then add_name (m.name_of (c ∷ d)) names
        else names))

  -- `os.environ.get(name, "").split(":")`
  abbrev pub path_list : Option Text → List Text
  path_list none = [] ∷ []
  path_list (some value) = split_on b':' value

  unfoldable pub discover_installed_packages : W → List Text
  unfolding split_on ament_packages catkin_packages
  discover_installed_packages w =
      catkin_packages w (path_list (lookup (chars "ROS_PACKAGE_PATH") m.environ))
        (ament_packages w (path_list (lookup (chars "AMENT_PREFIX_PATH") m.environ)) [])

  abbrev pub known_installed : Option (List Text) → Rosdep (List Text)
  known_installed (some names) p = (return names, p)
  known_installed none p =
      let names = discover_installed_packages p.disk in
      (return names, record p { installed_cache = some names })

  unfoldable pub installed_packages : Rosdep (List Text)
  unfolding discover_installed_packages
  installed_packages p = known_installed p.installed_cache p

  -- An installer that has to be there and to succeed.
  abbrev pub installed_with : RosdepError → Option Completed → Rosdep (Unit {0})
  installed_with error none = fail os_error
  installed_with error (some proc) = if succeeded proc then pure tt else fail error

  abbrev pub install_apt : List Text → Rosdep (Unit {0})
  install_apt [] = pure tt
  install_apt (first ∷ apt_pkgs) = do
    proc ← run_process (chars "sudo") (
        chars "apt-get"
        ∷ chars "install"
        ∷ chars "-y"
        ∷ chars "--no-install-recommends"
        ∷ first
        ∷ apt_pkgs)
    installed_with apt_failed proc

  abbrev pub install_pip : List Text → Rosdep (Unit {0})
  install_pip [] = pure tt
  install_pip (first ∷ pip_pkgs) = do
    supports ← pip_supports_break_system_packages
    proc ← run_process (chars "pip") (
        chars "install" ∷ (if supports then chars "--break-system-packages" ∷ [] else [])
        ++ first ∷ pip_pkgs)
    installed_with pip_failed proc

  abbrev pub install_resolved : ResolvedDeps → Rosdep (Unit {0})
  install_resolved resolved =
      if is_nonempty resolved.unresolved
      then fail (not_resolved resolved.unresolved)
      else (install_apt (sorted (distinct_onto resolved.apt []))
          >> install_pip (sorted (distinct_onto resolved.pip [])))

  abbrev pub install_keys : List Text → Rosdep (Unit {0})
  install_keys [] = pure tt
  install_keys (key ∷ filtered) = do
    resolved ← rosdep_resolve (key ∷ filtered)
    install_resolved resolved

  unfoldable pub rosdep_install : List Text → Rosdep (Unit {0})
  unfolding installed_packages rosdep_resolve pip_supports_break_system_packages
  rosdep_install [] = pure tt
  rosdep_install (key ∷ keys) = do
    installed ← installed_packages
    install_keys (sorted (not_in installed (key ∷ keys)))
