-- ===== src/Indexer/Closure.antt =====
-- `resolve_dependencies` of roscope/indexer.py: the loop, and the fuel that it needs.
use roscope.Base.{
  ℕ, zero, suc, ◌+◌, ◌≤◌, ◌≡◌, refl, Text, Dict, List, [], ◌∷◌, Option, none, some, Option-cases,
  Bool, true, false, lookup, contains_text, if◌then◌else◌, length, arith, List-cases, inl, inr,
  text_eq_iff, ap,
}
use roscope.Indexer.{
  Lockfile, PackageLock, Dependencies, DependencyMode, Disk, read_package_deps, mode_deps,
}

-- The variables of the function and the fields of the `DependencyGraph` that it fills. `queue` is
-- kept with its end first, which is where the loop takes from and adds to.
pub record Search : Type 0 where
  pub queue : List Text
  pub visited : List Text
  pub packages : List Text
  pub missing : List Text
  pub external : List Text

-- `queue.extend(names)`
unfoldable pub extend : List Text → List Text → List Text
extend [] queue = queue
extend (name ∷ names) queue = extend names (name ∷ queue)

abbrev pub is_locked : Lockfile → Text → Bool
is_locked lockfile pkg_name = elim (lookup pkg_name lockfile.packages) [
  | none ↦ false
  | some l ↦ true
]

module _ (disk : Disk) (lockfile : Lockfile) (mode : DependencyMode) where
  -- The end of the loop's body, with the dependencies that were read.
  unfoldable pub add_deps : Text → Option Dependencies → Search → Search
  unfolding extend
  add_deps pkg_name none s = record s { missing = pkg_name ∷ s.missing }
  add_deps pkg_name (some deps) s = record s { queue = extend (mode_deps mode deps) s.queue }

  -- The body of the loop, for the package that was taken from the queue.
  unfoldable pub visit : Text → Search → Search
  unfolding add_deps
  visit pkg_name s =
      if contains_text s.visited pkg_name
      then s
      else if is_locked lockfile pkg_name
      then add_deps pkg_name (read_package_deps disk lockfile pkg_name)
          (record s { visited = pkg_name ∷ s.visited; packages = pkg_name ∷ s.packages })
      else record s { visited = pkg_name ∷ s.visited; external = pkg_name ∷ s.external }

  -- `while queue`; `none` where the fuel ran out
  unfoldable pub search_loop : ℕ → Search → Option Search
  search_loop zero s = elim s.queue [ [] ↦ some s | _ ∷ _ ↦ none ]
  search_loop (suc fuel) s = elim s.queue [
    | [] ↦ some s
    | pkg_name ∷ rest ↦ search_loop fuel (visit pkg_name (record s { queue = rest }))
  ]

  abbrev pub initial : List Text → Search
  initial roots = record { queue = roots; visited = []; packages = []; missing = []; external = [] }

  -- The names that a package puts on the queue.
  unfoldable pub pushed : Text → List Text
  pushed pkg_name = elim (read_package_deps disk lockfile pkg_name) [
    | none ↦ []
    | some deps ↦ mode_deps mode deps
  ]

  -- What the packages that are not visited yet can still put on the queue.
  pub work_left : List Text → Dict PackageLock → ℕ
  work_left visited [] = 0
  work_left visited ((pkg_name, l) ∷ entries) =
      (if contains_text visited pkg_name then 0 else length (pushed pkg_name))
      + work_left visited entries

  unfoldable pub resolve_dependencies : List Text → Option Search
  unfolding search_loop work_left
  resolve_dependencies roots =
      search_loop (length roots + work_left [] lockfile.packages) (initial roots)

  length-extend :
      (names queue : List Text) → length (extend names queue) ≡ length names + length queue
  unfolding extend
  length-extend [] queue = omega arith
  length-extend (n ∷ names) queue = omega (arith, length-extend names (n ∷ queue))

  work_left_mono :
      (p : Text) (visited : List Text) (es : Dict PackageLock)
      → work_left (p ∷ visited) es ≤ work_left visited es
  unfolding work_left contains_text
  work_left_mono p visited [] = omega arith
  work_left_mono p visited ((k, l) ∷ es) = ground (arith, work_left_mono p visited es)

  work_left-visit :
      (p : Text) (visited : List Text) (es : Dict PackageLock) (l : PackageLock)
      → lookup p es ≡ some l
      → contains_text visited p ≡ false
      → work_left (p ∷ visited) es + length (pushed p) ≤ work_left visited es
  unfolding work_left contains_text lookup
  work_left-visit p visited [] l e n = cc
  work_left-visit p visited ((k, m) ∷ es) l e n = ground (
    arith,
    work_left-visit p visited es l,
    work_left_mono p visited es,
    text_eq_iff k p,
    text_eq_iff p k,
  )

  abbrev measure : Search → ℕ
  measure s = length s.queue + work_left s.visited lockfile.packages

  abbrev deps_list : Option Dependencies → List Text
  deps_list none = []
  deps_list (some deps) = mode_deps mode deps

  add_deps-measure :
      (p : Text) (o : Option Dependencies) (s : Search)
      → (length (add_deps p o s).queue ≡ length (deps_list o) + length s.queue)
        × ((add_deps p o s).visited ≡ s.visited)
  unfolding add_deps
  add_deps-measure p none s = (omega arith, refl)
  add_deps-measure p (some deps) s = (length-extend (mode_deps mode deps) s.queue, refl)

  pushed-eq : (p : Text) → pushed p ≡ deps_list (read_package_deps disk lockfile p)
  unfolding pushed
  pushed-eq p = ground arith

  visit-measure : (p : Text) (s : Search) → measure (visit p s) ≤ measure s
  unfolding visit
  visit-measure p s = elim (Option-cases (lookup p lockfile.packages)) [
    | inl e ↦ ground (arith, work_left_mono p s.visited lockfile.packages)
    | inr (l, e) ↦ ground (
      arith,
      add_deps-measure p (read_package_deps disk lockfile p)
          (record s { visited = p ∷ s.visited; packages = p ∷ s.packages }),
      pushed-eq p,
      work_left-visit p s.visited lockfile.packages l e,
    )
  ]

  pub search_loop_total :
      (fuel : ℕ) (s : Search) → measure s ≤ fuel → (t : Search) × (search_loop fuel s ≡ some t)
  unfolding search_loop
  search_loop_total zero s h = (s, ground arith)
  search_loop_total (suc fuel) s h = elim (List-cases s.queue) [
    | inl empty ↦ (s, ground arith)
    | inr (p, rest, e) ↦
        let s' = record s { queue = rest } in
        let (t, r) =
          search_loop_total fuel (visit p s') (omega (arith, visit-measure p s', ap length e)) in
        (t, ground arith)
  ]

  -- The loop ends: from any roots, the queue is empty before the fuel is.
  pub resolve_dependencies_total :
      (roots : List Text) → (t : Search) × (resolve_dependencies roots ≡ some t)
  unfolding resolve_dependencies
  resolve_dependencies_total roots =
      search_loop_total (length roots + work_left [] lockfile.packages) (initial roots)
        (omega arith)
