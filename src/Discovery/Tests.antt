-- ===== src/Discovery/Tests.antt =====
-- The generation of a lockfile on a small machine, and the theorems about it at concrete inputs.
use roscope.Base.{
  Text, chars, List, [], ◌∷◌, ◌++◌, Option, none, some, return, ◌≡◌, refl, true, false, text_eq,
  text_lt, lookup, insert, sorted, contains_text, strip, is_space, keys,
}
use roscope.Machine.{Machine}
use roscope.Indexer.{Lockfile, PackageLock}
use roscope.Discovery.Xml.{Child, Reader, PackageInfo, parse_package_xml, text_of}
use roscope.Discovery.Parsed.{HasNamesOf, parse_package_xml-names}
use roscope.Discovery.Git.{run_git, resolve_version_from_repo}
use roscope.Discovery.Packages.{discover_packages, discover_from_tar, parsed_at}
use roscope.Discovery.Generate.{RepoEntry, ReposFile, add_packages, add_repos, generate_lockfile}
use roscope.Discovery.Consistent.{IsConsistent, generate_lockfile-IsConsistent}

abbrev element : Text → Text → Option Text → Child
element tag text condition = record { tag = tag; text = some text; condition = condition }

-- The text of a package.xml stands for its name here.
abbrev sample_children : Text → List Child
sample_children name =
    element (chars "name") name none
    ∷ element (chars "depend") (chars " q ") none
    ∷ element (chars "exec_depend") (chars "p") (some (chars "$ROS =="))
    ∷ []

abbrev reader : Reader
reader = record {
  unicode = record { wide_space = λ c. false; wide_alnum = λ c. false };
  env_lookup = λ name. none;
  parse = λ content. some (sample_children content);
}

-- Every program succeeds, and prints nothing.
abbrev small_machine : Machine (Unit {0})
small_machine = record {
  unicode = reader.unicode;
  environ = [];
  join = λ a b. a ++ b'/' ∷ b;
  parent = λ path. chars "p";
  name_of = λ path. path;
  resolve = λ path w. path;
  exists = λ path w. false;
  is_dir = λ path w. false;
  list_dir = λ path w. none;
  walk = λ path w. [];
  make_parent = λ path w. (true, w);
  run = λ program args cwd w. (some (record { returncode = 0; stdout = []; stderr = [] }), w);
}

abbrev members : Text → List (Text × Option Text)
members archive =
    (chars "src", none)
    ∷ (chars "x/package.xml", some (chars "x"))
    ∷ (chars "a/package.xml", some (chars "a"))
    ∷ (chars "a/readme", some (chars "a"))
    ∷ []

abbrev sha : Text
sha = chars "0123456789abcdef0123456789abcdef01234567"

abbrev entry : Text → RepoEntry
entry repo_type = record { repo_type = repo_type; url = chars "url"; version = sha }

abbrev sample_repos : ReposFile
sample_repos = (chars "r", entry (chars "git")) ∷ (chars "h", entry (chars "hg")) ∷ []

abbrev at : Text → Text × PackageLock
at name = (name, record { repo = chars "r"; path = chars "p" })

abbrev sample_lock : Lockfile
sample_lock = record {
  repositories =
      (
        chars "r",
        record {
          url = chars "url";
          version = sha;
          repo_type = chars "git";
          version_ref = none;
          packages = chars "a" ∷ chars "x" ∷ [];
        },
      )
      ∷ [];
  packages = at (chars "x") ∷ at (chars "a") ∷ [];
}

generated :
    (generate_lockfile small_machine reader members none false sample_repos tt).0
    ≡ return sample_lock
unfolding generate_lockfile add_repos resolve_version_from_repo discover_packages run_git
    discover_from_tar parsed_at parse_package_xml text_of strip is_space add_packages lookup insert
    sorted text_eq text_lt
generated = refl

generate_lockfile-IsConsistent_example : IsConsistent sample_lock
unfolding contains_text keys text_eq
generate_lockfile-IsConsistent_example =
    generate_lockfile-IsConsistent small_machine reader members none false sample_repos tt
      sample_lock (refl, (refl, tt)) generated

parse_package_xml-names_example :
    (info : PackageInfo) × (parse_package_xml reader (chars "x") (chars "p") ≡ return info)
    × (info.name ≡ chars "x")
    × HasNamesOf reader (sample_children (chars "x")) info.dependencies
unfolding text_of strip is_space text_eq
parse_package_xml-names_example =
    parse_package_xml-names reader (chars "x") (chars "p") [] b'x' (sample_children (chars "x"))
      refl refl
