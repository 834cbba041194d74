-- ===== src/Locator/Tests.antt =====
-- Runs of the locator on a small disk, and the theorems about it at concrete inputs.
use roscope.Base.{
  Dict, Text, chars, List, [], ◌∷◌, ◌++◌, Option, none, some, return, ◌≡◌, refl, true, false,
  text_eq, lookup, insert, contains_text, if◌then◌else◌,
}
use roscope.Machine.{Machine}
use roscope.Locator.{
  PackageLocator, locate_package_share, all_install_shares, locate_install_share,
  resolve_package_share, get_package_lock, search_package_in_workspace, search_entries,
  search_deeper, add_shares, add_entries,
}
use roscope.Locator.Found.{locate_package_share-exists}
use roscope.Locator.Files.{
  locate_launch_file, find_share_file, locate_launch_file-count, IsSearchOf, count_files,
}
use roscope.Locator.Shares.{all_install_shares-lookup}

-- Two prefixes: `/p` has the package `a`, and `/q` has `a` and `b`. The workspace `/w` has the
-- package `c` two levels down.
abbrev disk : List Text
disk =
    chars "/p/share"
    ∷ chars "/p/share/a"
    ∷ chars "/q/share"
    ∷ chars "/q/share/a"
    ∷ chars "/q/share/b"
    ∷ chars "/w"
    ∷ chars "/w/g"
    ∷ chars "/w/g/r"
    ∷ chars "/w/g/r/c"
    ∷ chars "/w/g/r/c/package.xml"
    ∷ []

abbrev listing : Text → Option (List Text)
listing dir =
    if text_eq dir (chars "/p/share")
    then some (chars "/p/share/a" ∷ [])
    else if text_eq dir (chars "/q/share")
    then some (chars "/q/share/b" ∷ chars "/q/share/a" ∷ [])
    else if text_eq dir (chars "/w")
    then some (chars "/w/g" ∷ [])
    else if text_eq dir (chars "/w/g")
    then some (chars "/w/g/r" ∷ [])
    else none

abbrev name_in_listing : Text → Text
name_in_listing path =
    if contains_text (chars "/p/share/a" ∷ chars "/q/share/a" ∷ []) path
    then chars "a"
    else chars "b"

abbrev walked : Text → List (Text × List Text)
walked path =
    (path, chars "package.xml" ∷ [])
    ∷ (path ++ chars "/launch", chars "x.xml" ∷ chars "y.xml" ∷ [])
    ∷ []

abbrev small_machine : Machine (Unit {0})
small_machine = record {
  unicode = record { wide_space = λ c. false; wide_alnum = λ c. false };
  environ = [];
  join = λ a b. a ++ b'/' ∷ b;
  parent = λ path. path;
  name_of = name_in_listing;
  resolve = λ path w. path;
  exists = λ path w. contains_text disk path;
  is_dir = λ path w. contains_text disk path;
  list_dir = λ path w. listing path;
  walk = λ path w. walked path;
  make_parent = λ path w. (true, w);
  run = λ program args cwd w. (none, w);
}

abbrev sample_locator : PackageLocator
sample_locator = record {
  workspace_src = some (chars "/w");
  lockfile = none;
  ament_prefixes = chars "/p" ∷ chars "/q" ∷ [];
}

locate_package_share-exists_example : contains_text disk (chars "/w/g/r/c") ≡ true
unfolding locate_package_share locate_install_share resolve_package_share get_package_lock
    search_package_in_workspace search_entries search_deeper contains_text text_eq
locate_package_share-exists_example =
    locate_package_share-exists small_machine tt sample_locator (chars "c") (chars "/w/g/r/c") refl

abbrev sample_shares : Dict Text
sample_shares = (chars "a", chars "/p/share/a") ∷ (chars "b", chars "/q/share/b") ∷ []

shares_of_sample : all_install_shares small_machine tt sample_locator ≡ some sample_shares
unfolding all_install_shares add_shares add_entries lookup insert contains_text text_eq
shares_of_sample = refl

all_install_shares-lookup_example :
    lookup (chars "b") sample_shares
    ≡ locate_install_share small_machine tt sample_locator (chars "b")
unfolding contains_text text_eq
all_install_shares-lookup_example =
    all_install_shares-lookup small_machine tt sample_locator (chars "b") sample_shares
      (refl, (refl, tt)) shares_of_sample

locate_launch_file-count_example :
    IsSearchOf small_machine
      (count_files small_machine (chars "y.xml") (walked (chars "/w/g/r/c")))
      (locate_launch_file small_machine tt sample_locator (chars "c") (chars "y.xml"))
unfolding locate_package_share locate_install_share resolve_package_share get_package_lock
    search_package_in_workspace search_entries search_deeper contains_text text_eq
locate_launch_file-count_example =
    locate_launch_file-count small_machine tt sample_locator (chars "c") (chars "y.xml")
      (chars "/w/g/r/c") refl

y_found :
    locate_launch_file small_machine tt sample_locator (chars "c") (chars "y.xml")
    ≡ return (some (chars "/w/g/r/c/launch/y.xml"))
unfolding locate_launch_file find_share_file locate_package_share locate_install_share
    resolve_package_share get_package_lock search_package_in_workspace search_entries search_deeper
    contains_text text_eq
y_found = refl
