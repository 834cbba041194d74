-- ===== src/Rosdep/Tests.antt =====
-- The theorems about rosdep at concrete inputs.
use roscope.Base.{
  Text, chars, List, [], ◌∷◌, ◌++◌, ◌≡◌, refl, Unicode, true, false, splitlines, split_words,
  is_space, text_eq,
}
use roscope.Base.{Option, none, some}
use roscope.Machine.{Machine}
use roscope.Rosdep.Install.{
  Process, ensure_rosdep_updated, installed_packages, pip_supports_break_system_packages,
}
use roscope.Rosdep.Remembered.{rosdep_caches-remembered}
use roscope.Rosdep.{parse_rosdep_resolve}
use roscope.Rosdep.Printed.{Entry, printed, parse_rosdep_resolve-printed}

abbrev ascii_only : Unicode
ascii_only = record { wide_space = λ c. false; wide_alnum = λ c. false }

abbrev entry : Text → Text → Text → Entry
entry key installer line = record { key = key; installer = installer; line = line }

abbrev sample : List Entry
sample =
    entry (chars "k") (chars "apt") (chars "a b")
    ∷ entry (chars "m") (chars "brew") (chars "c")
    ∷ entry (chars "n") (chars "pip") (chars "d")
    ∷ []

abbrev end_lines : List Text → Text
end_lines [] = []
end_lines (line ∷ lines) = line ++ 10 ∷ end_lines lines

parse_rosdep_resolve-printed_example :
    parse_rosdep_resolve ascii_only (end_lines (printed sample)) (chars "z" ∷ chars "k" ∷ [])
    ≡ record {
      apt = chars "a" ∷ chars "b" ∷ [];
      pip = chars "d" ∷ [];
      unresolved = chars "m" ∷ chars "z" ∷ [];
    }
unfolding splitlines split_words is_space text_eq
parse_rosdep_resolve-printed_example =
    parse_rosdep_resolve-printed ascii_only (end_lines (printed sample)) sample
      (chars "z" ∷ chars "k" ∷ []) refl
      ((refl, refl, refl), ((refl, refl, refl), ((refl, refl, refl), tt)))

-- A machine that counts the programs that were run, as a list of their names.
abbrev small_machine : Machine (List Text)
small_machine = record {
  unicode = ascii_only;
  environ = (chars "ROS_DISTRO", chars "humble") ∷ [];
  join = λ a b. a ++ b'/' ∷ b;
  parent = λ path. path;
  name_of = λ path. path;
  resolve = λ path w. path;
  exists = λ path w. true;
  is_dir = λ path w. true;
  list_dir = λ path w. none;
  walk = λ path w. [];
  make_parent = λ path w. (true, w);
  run = λ program args cwd w. (
    some (record { returncode = 0; stdout = chars "--break-system-packages"; stderr = [] }),
    program ∷ w,
  );
}

abbrev fresh : Option (List Text) → Process (List Text)
fresh installed = record {
  is_updated = false;
  installed_cache = installed;
  break_system = none;
  disk = [];
}

rosdep_caches-remembered_example :
    (ensure_rosdep_updated small_machine (ensure_rosdep_updated small_machine (fresh none)).1
      ≡ ensure_rosdep_updated small_machine (fresh none))
    × (installed_packages small_machine (installed_packages small_machine (fresh none)).1
        ≡ installed_packages small_machine (fresh none))
    × (pip_supports_break_system_packages small_machine
          (pip_supports_break_system_packages small_machine (fresh none)).1
        ≡ pip_supports_break_system_packages small_machine (fresh none))
rosdep_caches-remembered_example = rosdep_caches-remembered small_machine (fresh none)

updated_once :
    (ensure_rosdep_updated small_machine
      (ensure_rosdep_updated small_machine (fresh none)).1).1.disk
    ≡ chars "rosdep" ∷ []
unfolding ensure_rosdep_updated
updated_once = refl
