-- ===== src/Locator/Shares.antt =====
-- The bulk lookup of roscope/locator.py against the lookup of one package.
use roscope.Base.{
  Text, Dict, Bool, true, false, not, ◌&&◌, List, [], ◌∷◌, Option, none, some, ◌≡◌, refl, inl, inr,
  Bool-cases, Option-cases, if◌then◌else◌, lookup, insert, lookup-insert, text_eq, text_eq_iff,
  is_some, All, ◌∙◌, sym, ap, subst,
}
use roscope.Machine.{Machine}
use roscope.Locator.{
  PackageLocator, first_of, or_else, add_entries, add_shares, all_install_shares,
  locate_install_share, shares_of, share_of, share, add_listed, and_then,
}

module _ {W : Type 0} (m : Machine W) (w : W) where
  abbrev pub listed : Option (List Text) → List Text
  listed none = []
  listed (some entries) = entries

  -- The first directory of a listing that has a name.
  abbrev pub named_in : Text → List Text → Option Text
  named_in name [] = none
  named_in name (entry ∷ rest) =
      if m.is_dir entry w && text_eq (m.name_of entry) name then some entry else named_in name rest

  abbrev pub subdirectory : Text → Text → Option Text
  subdirectory dir name = if m.is_dir dir w then named_in name (listed (m.list_dir dir w)) else none

  -- The listing of the `share` directory of a prefix shows a name exactly where that path exists.
  abbrev pub ShowsShare : Text → Text → Type 0
  ShowsShare name prefix =
      subdirectory (m.join prefix share) name
      ≡ (if m.exists (share_of m name prefix) w then some (share_of m name prefix) else none)

  or_else-none : (o : Option Text) → o ≡ or_else o none
  or_else-none none = refl
  or_else-none (some path) = refl

  or_else_assoc : (a b c : Option Text) → or_else (or_else a b) c ≡ or_else a (or_else b c)
  or_else_assoc none b c = refl
  or_else_assoc (some path) b c = refl

  -- `setdefault` of one entry.
  lookup-set_default :
      (name n entry : Text) (result : Dict Text)
      → lookup name (if not (is_some (lookup n result)) then insert n entry result else result)
        ≡ or_else (lookup name result) (if text_eq n name then some entry else none)
  lookup-set_default name n entry result = elim (Option-cases (lookup n result)) [
    | inl unset ↦ rw unset (
        rw (lookup-insert n name entry result) (elim (Bool-cases (text_eq n name)) [
          | inl same ↦ rw same (rw (moved same none unset) refl)
          | inr other ↦ rw other (or_else-none _)
        ]))
    | inr old ↦ rw old.1 (elim (Bool-cases (text_eq n name)) [
      | inl same ↦ rw (moved same (some old.0) old.1) refl
      | inr other ↦ rw other (or_else-none _)
    ])
  ]
    where
      moved :
          text_eq n name ≡ true → (o : Option Text) → lookup n result ≡ o → lookup name result ≡ o
      moved same o e = subst (λ x. lookup x result ≡ o) ((text_eq_iff n name).0 same) e

  lookup-add_entry :
      (name entry : Text) (result : Dict Text)
      → lookup name (
          if m.is_dir entry w && not (is_some (lookup (m.name_of entry) result))
          then insert (m.name_of entry) entry result
          else result)
        ≡ or_else
            (lookup name result)
            (if m.is_dir entry w && text_eq (m.name_of entry) name then some entry else none)
  lookup-add_entry name entry result = elim (Bool-cases (m.is_dir entry w)) [
    | inl dir ↦ rw dir (lookup-set_default name (m.name_of entry) entry result)
    | inr other ↦ rw other (or_else-none _)
  ]

  or_else-if :
      (b : Bool) (a : Option Text) (path : Text) (next : Option Text)
      → or_else (or_else a (if b then some path else none)) next
        ≡ or_else a (if b then some path else next)
  or_else-if true a path next = or_else_assoc a (some path) next
  or_else-if false a path next = or_else_assoc a none next

  lookup-add_entries :
      (name : Text) (entries : List Text) (result : Dict Text)
      → lookup name (add_entries m w entries result)
        ≡ or_else (lookup name result) (named_in name entries)
  unfolding add_entries
  lookup-add_entries name [] result = or_else-none _
  lookup-add_entries name (entry ∷ rest) result =
      lookup-add_entries name rest _
      ∙ ap (λ o. or_else o (named_in name rest)) (lookup-add_entry name entry result)
      ∙ or_else-if _ (lookup name result) entry (named_in name rest)

  some_eq : (a b : Dict Text) → some a ≡ some b → a ≡ b
  some_eq a b e = cc

  lookup-add_listed :
      (name : Text) (listing : Option (List Text)) (result shares : Dict Text)
      → add_listed m w listing result ≡ some shares
      → lookup name shares ≡ or_else (lookup name result) (named_in name (listed listing))
  lookup-add_listed name none result shares e = cc
  lookup-add_listed name (some entries) result shares e =
      ap (lookup name) (sym (some_eq _ shares e)) ∙ lookup-add_entries name entries result

  lookup-add_share :
      (name prefix : Text) (result shares : Dict Text)
      → ShowsShare name prefix
      → (if m.is_dir (m.join prefix share) w
          then add_listed m w (m.list_dir (m.join prefix share) w) result
          else some result)
        ≡ some shares
      → lookup name shares
        ≡ or_else
            (lookup name result)
            (if m.exists (share_of m name prefix) w then some (share_of m name prefix) else none)
  lookup-add_share name prefix result shares shows e =
      rw (sym shows) (elim (Bool-cases (m.is_dir (m.join prefix share) w)) [
        | inl dir ↦ rw dir (
            lookup-add_listed name (m.list_dir (m.join prefix share) w) result shares (rw dir at e))
        | inr other ↦
            rw other
              (ap (lookup name) (sym (some_eq result shares (rw other at e))) ∙ or_else-none _)
      ])

  lookup-add_shares :
      (name : Text) (prefixes : List Text) (result shares : Dict Text)
      → All (ShowsShare name) prefixes
      → add_shares m w prefixes result ≡ some shares
      → lookup name shares
        ≡ or_else
            (lookup name result)
            (first_of (λ path. m.exists path w) (shares_of m name prefixes))
  unfolding add_shares
  lookup-add_shares name [] result shares shows e =
      ap (lookup name) (sym (some_eq result shares e)) ∙ or_else-none _
  lookup-add_shares name (prefix ∷ prefixes) result shares shows e =
      by_step
        (if m.is_dir (m.join prefix share) w
          then add_listed m w (m.list_dir (m.join prefix share) w) result
          else some result)
        (λ found. lookup-add_share name prefix result found shows.0)
        (λ found. lookup-add_shares name prefixes found shares shows.1) e
    where
      by_step :
          (step : Option (Dict Text))
          → ((found : Dict Text)
              → step ≡ some found
              → lookup name found
                ≡ or_else (lookup name result) (
                    if m.exists (share_of m name prefix) w
                    then some (share_of m name prefix)
                    else none))
          → ((found : Dict Text)
              → add_shares m w prefixes found ≡ some shares
              → lookup name shares
                ≡ or_else
                    (lookup name found)
                    (first_of (λ path. m.exists path w) (shares_of m name prefixes)))
          → and_then step (add_shares m w prefixes) ≡ some shares
          → lookup name shares
            ≡ or_else
                (lookup name result)
                (first_of (λ path. m.exists path w) (shares_of m name (prefix ∷ prefixes)))
      by_step none one rest h = cc
      by_step (some found) one rest h =
          rest found h
          ∙ ap (λ o. or_else o (first_of (λ path. m.exists path w) (shares_of m name prefixes)))
              (one found refl)
          ∙ or_else-if _ (lookup name result) (share_of m name prefix) _

  -- Where the listings of the `share` directories of all prefixes show a package exactly where its
  -- directory exists, and all of them can be read, the entry of the package in `all_install_shares` is
  -- what `locate_install_share` finds for it, and there is none where that finds nothing.
  pub all_install_shares-lookup :
      (loc : PackageLocator) (name : Text) (shares : Dict Text)
      → All (ShowsShare name) loc.ament_prefixes
      → all_install_shares m w loc ≡ some shares
      → lookup name shares ≡ locate_install_share m w loc name
  unfolding all_install_shares locate_install_share lookup
  all_install_shares-lookup loc name shares shows e =
      lookup-add_shares name loc.ament_prefixes [] shares shows e
