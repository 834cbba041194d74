-- ===== src/Discovery/Xml.antt =====
-- `parse_package_xml` of roscope/indexer.py, on the tree that the XML parser gives.
use roscope.Base.{
  Text, chars, Bool, true, ◌&&◌, List, [], ◌∷◌, ◌++◌, Option, none, some, Result, return, raise,
  if◌then◌else◌, text_eq, contains_text, sorted, strip, Unicode,
}
use roscope.Condition.{evaluate_condition}
use roscope.Condition.Lex.{Error}
use roscope.Indexer.{Dependencies}

-- A child of the root: its tag, its text, and its attribute `condition`.
pub record Child : Type 0 where
  pub tag : Text
  pub text : Option Text
  pub condition : Option Text

-- What is read of an XML text, of which the root has these children, and its environment; `parse` is
-- `ElementTree.fromstring`, and `none` where it raises `ParseError`.
pub record Reader : Type 0 where
  pub unicode : Unicode
  pub env_lookup : Text → Option Text
  pub parse : Text → Option (List Child)

pub record PackageInfo : Type 0 where
  pub name : Text
  pub path : Text
  pub dependencies : Dependencies

-- `XmlParseError`, of a text that is no XML, and of one without a name.
pub data XmlError : Type 0 where
  not_xml no_name : XmlError

abbrev pub no_dependencies : Dependencies
no_dependencies = record {
  build = [];
  build_export = [];
  buildtool = [];
  buildtool_export = [];
  exec = [];
  test = [];
}

-- An element with a condition that cannot be evaluated is included.
abbrev pub unless_error : Result Error Bool → Bool
unless_error (raise e) = true
unless_error (return b) = b

-- `name not in names` is appended, and an empty name is not.
abbrev pub add_new : Text → List Text → List Text
add_new [] names = names
add_new (c ∷ name) names =
    if contains_text names (c ∷ name) then names else names ++ (c ∷ name) ∷ []

module _ (r : Reader) where
  -- `(el.text or "").strip()`
  unfoldable pub text_of : Option Text → Text
  unfolding strip
  text_of none = []
  text_of (some t) = strip r.unicode t

  unfoldable pub is_included : Option Text → Bool
  unfolding evaluate_condition
  is_included none = true
  is_included (some cond) = unless_error (evaluate_condition r.unicode r.env_lookup cond)

  -- `root.find("name")`
  abbrev pub find_name : List Child → Option Text
  find_name [] = none
  find_name (el ∷ children) =
      if text_eq el.tag (chars "name") then some (text_of el.text) else find_name children

  -- The loop over `root.findall(tag)`, for one list.
  unfoldable pub add_tag : Text → List Child → List Text → List Text
  unfolding text_of is_included
  add_tag tag [] names = names
  add_tag tag (el ∷ children) names = add_tag tag children (
      if text_eq el.tag tag && is_included el.condition
      then add_new (text_of el.text) names
      else names)

  -- The elements of a tag, and then `<depend>`.
  abbrev pub with_depend : Text → List Child → List Text
  with_depend tag children = add_tag (chars "depend") children (add_tag tag children [])

  unfoldable pub dependencies_of : List Child → Dependencies
  unfolding add_tag sorted
  dependencies_of children = record {
    build = sorted (with_depend (chars "build_depend") children);
    build_export = sorted (with_depend (chars "build_export_depend") children);
    buildtool = sorted (add_tag (chars "buildtool_depend") children []);
    buildtool_export = sorted (add_tag (chars "buildtool_export_depend") children []);
    exec = sorted (with_depend (chars "exec_depend") children);
    test = sorted (add_tag (chars "test_depend") children []);
  }

  abbrev pub info_of : Text → List Child → Option Text → Result XmlError PackageInfo
  info_of path children none = raise no_name
  info_of path children (some []) = raise no_name
  info_of path children (some (c ∷ name)) =
      return (record { name = c ∷ name; path = path; dependencies = dependencies_of children })

  abbrev pub info_of_root : Text → Option (List Child) → Result XmlError PackageInfo
  info_of_root path none = raise not_xml
  info_of_root path (some children) = info_of path children (find_name children)

  unfoldable pub parse_package_xml : Text → Text → Result XmlError PackageInfo
  unfolding dependencies_of text_of
  parse_package_xml content path = info_of_root path (r.parse content)
