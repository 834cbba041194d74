-- ===== src/Locator/Found.antt =====
-- What `locate_package_share` of roscope/locator.py returns.
use roscope.Base.{
  chars, TextMem, sym, Text, Bool, true, false, ◌&&◌, List, [], ◌∷◌, Option, none, some, ◌≡◌, refl,
  arith, inl, inr, Bool-cases, subst, if◌then◌else◌,
}
use roscope.Machine.{Machine}
use roscope.Locator.{
  PackageLocator, first_of, or_else, is_package, search_deeper, deeper_in, search_entry,
  search_entries, search_listed, search_package_in_workspace, existing, scan_workspace,
  resolve_package_share, locate_install_share, share_of, shares_of, locate_package_share,
}

module _ {W : Type 0} (m : Machine W) (w : W) where
  -- A path that is found is on disk.
  abbrev IsThere : Option Text → Type 0
  IsThere none = Unit
  IsThere (some path) = m.exists path w ≡ true

  or_else-IsThere : (a b : Option Text) → IsThere a → IsThere b → IsThere (or_else a b)
  or_else-IsThere none b ha hb = hb
  or_else-IsThere (some path) b ha hb = ha

  -- A guarded path whose guard implies that it is there.
  guard-IsThere :
      (b : Bool) (path : Text) (next : Option Text)
      → (b ≡ true → m.exists path w ≡ true)
      → IsThere next
      → IsThere (if b then some path else next)
  guard-IsThere true path next h k = h refl
  guard-IsThere false path next h k = k

  first_of-IsThere : (paths : List Text) → IsThere (first_of (λ path. m.exists path w) paths)
  first_of-IsThere [] = tt
  first_of-IsThere (path ∷ paths) =
      guard-IsThere (m.exists path w) path _ (λ h. h) (first_of-IsThere paths)

  both : (a b : Bool) → a && b ≡ true → (a ≡ true) × (b ≡ true)
  both a b h = ground arith

  is_package-there : (path : Text) → is_package m w path ≡ true → m.exists path w ≡ true
  is_package-there path h = (both (m.exists path w) _ h).0

  search_deeper-IsThere :
      (name : Text) (entries : List Text) → IsThere (search_deeper m w name entries)
  unfolding search_deeper
  search_deeper-IsThere name [] = tt
  search_deeper-IsThere name (entry ∷ rest) =
      guard-IsThere _ (m.join entry name) _
        (λ h. is_package-there (m.join entry name) (both (m.is_dir entry w) _ h).1)
        (search_deeper-IsThere name rest)

  deeper_in-IsThere :
      (name : Text) (listing : Option (List Text)) → IsThere (deeper_in m w name listing)
  deeper_in-IsThere name none = tt
  deeper_in-IsThere name (some entries) = search_deeper-IsThere name entries

  search_entry-IsThere : (name entry : Text) → IsThere (search_entry m w name entry)
  search_entry-IsThere name entry =
      guard-IsThere _ (m.join entry name) _ (is_package-there (m.join entry name)) (
        guard-IsThere _ (m.join (m.join entry name) name) _ (λ h. h)
          (deeper_in-IsThere name (m.list_dir entry w)))

  search_entries-IsThere :
      (name : Text) (entries : List Text) → IsThere (search_entries m w name entries)
  unfolding search_entries
  search_entries-IsThere name [] = tt
  search_entries-IsThere name (entry ∷ rest) =
      or_else-IsThere _ _
        (elim (Bool-cases (m.is_dir entry w)) [
          | inl dir ↦ rw dir (search_entry-IsThere name entry)
          | inr other ↦ rw other tt
        ])
        (search_entries-IsThere name rest)

  search-IsThere :
      (name : Text) (listing : Option (List Text)) → IsThere (search_listed m w name listing)
  search-IsThere name none = tt
  search-IsThere name (some entries) = search_entries-IsThere name entries

  scan_workspace-IsThere : (name : Text) (ws : Option Text) → IsThere (scan_workspace m w name ws)
  unfolding search_package_in_workspace
  scan_workspace-IsThere name none = tt
  scan_workspace-IsThere name (some ws) =
      guard-IsThere _ (m.join (m.join ws name) name) _ (λ h. h)
        (guard-IsThere _ (m.join ws name) _ (is_package-there (m.join ws name))
          (search-IsThere name (m.list_dir ws w)))

  existing-IsThere : (path : Option Text) → IsThere (existing m w path)
  existing-IsThere none = tt
  existing-IsThere (some path) = guard-IsThere (m.exists path w) path none (λ h. h) tt

  pub locate_install_share-exists :
      (loc : PackageLocator) (package_name path : Text)
      → locate_install_share m w loc package_name ≡ some path
      → m.exists path w ≡ true
  unfolding locate_install_share
  locate_install_share-exists loc package_name path found =
      subst IsThere found (first_of-IsThere (shares_of m package_name loc.ament_prefixes))

  -- A share directory that is found is the package's in one of the prefixes.
  abbrev pub IsShareIn : Text → List Text → Text → Type 0
  IsShareIn package_name prefixes path =
      (prefix : Text) × TextMem prefix prefixes
      × (path ≡ m.join (m.join prefix (chars "share")) package_name)
      × (m.exists path w ≡ true)

  first_of-IsShareIn :
      (package_name : Text) (prefixes : List Text) (path : Text)
      → first_of (λ path. m.exists path w) (shares_of m package_name prefixes) ≡ some path
      → IsShareIn package_name prefixes path
  first_of-IsShareIn package_name [] path found = absurd (cc)
  first_of-IsShareIn package_name (prefix ∷ prefixes) path found =
      elim (Bool-cases (m.exists (share_of m package_name prefix) w)) [
        | inl there ↦
            let same = some_path _ path (rw there at found) in
            (prefix, inl refl, sym same, subst (λ x. m.exists x w ≡ true) same there)
        | inr missing ↦
            let (other, mem, same, there) =
              first_of-IsShareIn package_name prefixes path (rw missing at found) in
            (other, inr mem, same, there)
      ]
    where
      some_path : (a b : Text) → some a ≡ some b → a ≡ b
      some_path a b e = cc

  pub locate_install_share-IsShareIn :
      (loc : PackageLocator) (package_name path : Text)
      → locate_install_share m w loc package_name ≡ some path
      → IsShareIn package_name loc.ament_prefixes path
  unfolding locate_install_share
  locate_install_share-IsShareIn loc package_name path found =
      first_of-IsShareIn package_name loc.ament_prefixes path found

  -- Whatever strategy finds a package, the path that `locate_package_share` returns is on disk.
  pub locate_package_share-exists :
      (loc : PackageLocator) (package_name path : Text)
      → locate_package_share m w loc package_name ≡ some path
      → m.exists path w ≡ true
  unfolding locate_package_share locate_install_share
  locate_package_share-exists loc package_name path found = subst IsThere found (
      or_else-IsThere _ _ (existing-IsThere (resolve_package_share m loc package_name)) (
        or_else-IsThere _ _ (scan_workspace-IsThere package_name loc.workspace_src)
          (first_of-IsThere (shares_of m package_name loc.ament_prefixes))))
