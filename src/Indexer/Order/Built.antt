-- ===== src/Indexer/Order/Built.antt =====
-- The first loop of `compute_build_order` in roscope/indexer.py: the degrees and the dependents that
-- it counts.
use roscope.Base.{
  ℕ, zero, suc, ◌+◌, ◌≤◌, Text, Dict, List, [], ◌∷◌, ◌++◌, Option, none, some, Bool, true, false,
  ◌||◌, ◌≡◌, ◌⊎◌, refl, sym, ap, ◌∙◌, subst, arith, inl, inr, Bool-cases, lookup, insert, keys,
  lookup-insert, contains_text, text_eq, text_eq_iff, text_eq_refl, if◌then◌else◌, bit, occurrences,
  occurrences-append, contains_text-occurrences, HasUniqueKeys, insert-HasUniqueKeys,
}
use roscope.Indexer.{Lockfile, Disk}
use roscope.Indexer.Order.{
  ℤ, pos, is_zero, names_of, Edges, all_zero, add_edge, add_edges, add_all, deps_of, free_entry,
  free_packages,
}
use roscope.Indexer.Order.Counts.{change-increment}
use roscope.Indexer.Order.Left.{left}

-- A number, so many times.
abbrev pub times : ℕ → ℕ → ℕ
times zero n = 0
times (suc k) n = n + times k n

times-bit : (b : Bool) (k n : ℕ) → times (bit b + k) n ≡ (if b then n else 0) + times k n
times-bit true k n = ap (λ i. times i n) one_more
  where
    one_more : 1 + k ≡ suc k
    one_more = omega arith
times-bit false k n = ap (λ i. times i n) none_more ∙ omega arith
  where
    none_more : 0 + k ≡ k
    none_more = omega arith

lookup-all_zero :
    (x : Text) (names : List Text) (d : Dict ℤ)
    → lookup x (all_zero names d) ≡ (if contains_text names x then some (pos 0) else lookup x d)
unfolding all_zero contains_text
lookup-all_zero x [] d = refl
lookup-all_zero x (name ∷ names) d =
    lookup-all_zero x names (insert name (pos 0) d)
    ∙ rw (lookup-insert name x (pos 0) d) (by_tests (contains_text names x) (text_eq name x))
  where
    by_tests :
        (a b : Bool)
        → (if a then some (pos 0) else if b then some (pos 0) else lookup x d)
          ≡ (if b || a then some (pos 0) else lookup x d)
    by_tests true true = refl
    by_tests true false = refl
    by_tests false true = refl
    by_tests false false = refl

all_zero-HasUniqueKeys :
    (names : List Text) (d : Dict ℤ) → HasUniqueKeys d → HasUniqueKeys (all_zero names d)
unfolding all_zero
all_zero-HasUniqueKeys [] d h = h
all_zero-HasUniqueKeys (name ∷ names) d h =
    all_zero-HasUniqueKeys names (insert name (pos 0) d) (insert-HasUniqueKeys name (pos 0) d h)

pub zero_or_one : (n : ℕ) → n ≤ 1 → (n ≡ 0) ⊎ (n ≡ 1)
zero_or_one n h = omega arith

abbrev pub is_free : Option ℤ → Bool
is_free none = false
is_free (some degree) = is_zero degree

lookup-absent : (k : Text) (d : Dict ℤ) → contains_text (keys d) k ≡ false → lookup k d ≡ none
unfolding lookup keys contains_text
lookup-absent k [] h = refl
lookup-absent k ((j, z) ∷ d) h = ground (arith, lookup-absent k d)

-- The packages that the second loop starts with.
pub occurrences-free_packages :
    (x : Text) (d : Dict ℤ)
    → HasUniqueKeys d
    → occurrences x (free_packages d) ≡ bit (is_free (lookup x d))
unfolding free_packages occurrences lookup
occurrences-free_packages x [] h = refl
occurrences-free_packages x ((k, z) ∷ d) h =
    by_entry (occurrences-free_packages x d h.1) (Bool-cases (text_eq k x)) (Bool-cases (is_zero z))
  where
    absent : text_eq k x ≡ true → lookup x d ≡ none
    absent same = subst (λ y. lookup y d ≡ none) ((text_eq_iff k x).0 same) (lookup-absent k d h.0)

    by_entry :
        occurrences x (free_packages d) ≡ bit (is_free (lookup x d))
        → (text_eq k x ≡ true) ⊎ (text_eq k x ≡ false)
        → (is_zero z ≡ true) ⊎ (is_zero z ≡ false)
        → occurrences x (free_entry k z (free_packages d))
          ≡ bit (is_free (if text_eq k x then some z else lookup x d))
    by_entry tail (inl same) (inl free) =
        rw free (rw same (rw free (omega (arith, tail, ap (λ o. bit (is_free o)) (absent same)))))
    by_entry tail (inl same) (inr busy) =
        rw busy (rw same (rw busy (omega (arith, tail, ap (λ o. bit (is_free o)) (absent same)))))
    by_entry tail (inr other) (inl free) = rw free (rw other (omega (arith, tail)))
    by_entry tail (inr other) (inr busy) = rw busy (rw other tail)

module _ (packages : List Text) where
  -- The numbers that a package has been counted with: its degree, and how often it is a dependent of
  -- each other one.
  pub record Tallied (degree : Text → ℕ) (named : Text → Text → ℕ) (e : Edges) : Type 0 where
    pub degrees :
        (x : Text) → occurrences x packages ≡ 1 → lookup x e.in_degree ≡ some (pos (degree x))
    pub absent : (x : Text) → occurrences x packages ≡ 0 → lookup x e.in_degree ≡ none
    pub unique_keys : HasUniqueKeys e.in_degree
    pub names : (x d : Text) → occurrences x (names_of (lookup d e.dependents)) ≡ named x d

  Tallied-cong :
      {f f' : Text → ℕ} {g g' : Text → Text → ℕ} (e : Edges)
      → ((x : Text) → f x ≡ f' x)
      → ((x d : Text) → g x d ≡ g' x d)
      → Tallied f g e
      → Tallied f' g' e
  Tallied-cong e same same' t = record {
    degrees = λ x h. t.degrees x h ∙ ap (λ i. some (pos i)) (same x);
    absent = t.absent;
    unique_keys = t.unique_keys;
    names = λ x d. t.names x d ∙ same' x d;
  }

  abbrev Gives : (Text → ℕ) → (Text → Text → ℕ) → Option Edges → Type 0
  Gives f g o = (e : Edges) × (o ≡ some e) × Tallied f g e

  module _ {f : Text → ℕ} {g : Text → Text → ℕ} where
    add_edge-Tallied :
        (pkg dep : Text) (e : Edges)
        → occurrences pkg packages ≡ 1
        → Tallied f g e
        → Gives
            (λ x. f x + bit (text_eq pkg x))
            (λ x d. g x d + (if text_eq dep d then bit (text_eq pkg x) else 0))
            (add_edge pkg dep e)
    unfolding add_edge occurrences
    add_edge-Tallied pkg dep e locked t = (
      record {
        in_degree = insert pkg (pos (suc (f pkg))) e.in_degree;
        dependents = insert dep (names_of (lookup dep e.dependents) ++ pkg ∷ []) e.dependents;
      },
      rw (change-increment pkg (f pkg) e.in_degree (t.degrees pkg locked)) refl,
      record {
        degrees = degree;
        absent = missing;
        unique_keys = insert-HasUniqueKeys pkg _ e.in_degree t.unique_keys;
        names = named;
      },
    )
      where
        degree :
            (x : Text)
            → occurrences x packages ≡ 1
            → lookup x (insert pkg (pos (suc (f pkg))) e.in_degree)
              ≡ some (pos (f x + bit (text_eq pkg x)))
        degree x h = lookup-insert pkg x _ e.in_degree ∙ (elim (Bool-cases (text_eq pkg x)) [
          | inl same ↦
              rw same (rw ((text_eq_iff pkg x).0 same) (ap (λ i. some (pos i)) (omega arith)))
          | inr other ↦ rw other (t.degrees x h ∙ ap (λ i. some (pos i)) (omega arith))
        ])

        missing :
            (x : Text)
            → occurrences x packages ≡ 0
            → lookup x (insert pkg (pos (suc (f pkg))) e.in_degree) ≡ none
        missing x h = lookup-insert pkg x _ e.in_degree ∙ (elim (Bool-cases (text_eq pkg x)) [
          | inl same ↦ absurd (
              clash
                (sym locked ∙ ap (λ y. occurrences y packages) ((text_eq_iff pkg x).0 same) ∙ h))
          | inr other ↦ rw other (t.absent x h)
        ])
          where
            clash : ◌≡◌ {A = ℕ} 1 0 → ⊥
            clash k = omega arith

        named :
            (x d : Text)
            → occurrences x (
                names_of (
                  lookup d
                    (insert dep (names_of (lookup dep e.dependents) ++ pkg ∷ []) e.dependents)))
              ≡ g x d + (if text_eq dep d then bit (text_eq pkg x) else 0)
        named x d =
            rw (lookup-insert dep d (names_of (lookup dep e.dependents) ++ pkg ∷ []) e.dependents)
              (elim (Bool-cases (text_eq dep d)) [
                | inl same ↦ rw same (rw (sym ((text_eq_iff dep d).0 same)) (appended x))
                | inr other ↦ rw other (t.names x d ∙ omega arith)
              ])
          where
            appended :
                (x : Text)
                → occurrences x (names_of (lookup dep e.dependents) ++ pkg ∷ [])
                  ≡ g x dep + bit (text_eq pkg x)
            appended x = omega (
              arith,
              occurrences-append x (names_of (lookup dep e.dependents)) (pkg ∷ []),
              t.names x dep,
            )

  -- How often a package of the list is named by dependencies.
  abbrev pub named_by : List Text → Text → ℕ
  named_by deps d = if contains_text packages d then occurrences d deps else 0

  add_edges-Tallied :
      (pkg : Text) (deps : List Text) (f : Text → ℕ) (g : Text → Text → ℕ) (e : Edges)
      → occurrences pkg packages ≡ 1
      → Tallied f g e
      → Gives
          (λ x. f x + (if text_eq pkg x then left packages [] deps else 0))
          (λ x d. g x d + (if text_eq pkg x then named_by deps d else 0))
          (add_edges packages pkg deps e)
  unfolding add_edges left contains_text occurrences
  add_edges-Tallied pkg [] f g e locked t =
      (e, refl, Tallied-cong e (λ x. ground arith) (λ x d. ground arith) t)
  add_edges-Tallied pkg (dep ∷ deps) f g e locked t =
      elim (Bool-cases (contains_text packages dep)) [
        | inl inside ↦
            let (e1, went, t1) = add_edge-Tallied pkg dep e locked t in
            let (e2, went2, t2) = add_edges-Tallied pkg deps _ _ e1 locked t1 in
            (
              e2,
              rw inside (rw went went2),
              Tallied-cong e2 (λ x. rw inside (ground arith)) (λ x d. more_names inside x d) t2,
            )
        | inr outside ↦
            let (e2, went2, t2) = add_edges-Tallied pkg deps f g e locked t in
            (
              e2,
              rw outside went2,
              Tallied-cong e2 (λ x. rw outside (ground arith)) (λ x d. same_names outside x d) t2,
            )
      ]
    where
      more_names :
          contains_text packages dep ≡ true
          → (x d : Text)
          → g x d
              + (if text_eq dep d then bit (text_eq pkg x) else 0)
              + (if text_eq pkg x then named_by deps d else 0)
            ≡ g x d + (if text_eq pkg x then named_by (dep ∷ deps) d else 0)
      more_names inside x d = ground (arith, text_eq_iff dep d)

      same_names :
          contains_text packages dep ≡ false
          → (x d : Text)
          → g x d + (if text_eq pkg x then named_by deps d else 0)
            ≡ g x d + (if text_eq pkg x then named_by (dep ∷ deps) d else 0)
      same_names outside x d = ground (arith, text_eq_iff dep d)

module _ (disk : Disk) (lockfile : Lockfile) (packages : List Text) where
  add_all-Tallied :
      (pkgs : List Text) (f : Text → ℕ) (g : Text → Text → ℕ) (e : Edges)
      → ((x : Text) → occurrences x packages ≡ 0 → occurrences x pkgs ≡ 0)
      → ((x : Text) → occurrences x packages ≤ 1)
      → Tallied packages f g e
      → Gives packages
          (λ x. f x + times (occurrences x pkgs) (left packages [] (deps_of disk lockfile x)))
          (λ x d.
            g x d + times (occurrences x pkgs) (named_by packages (deps_of disk lockfile x) d))
          (add_all disk lockfile packages pkgs e)
  unfolding add_all occurrences
  add_all-Tallied [] f g e inside unique t =
      (e, refl, Tallied-cong packages e (λ x. omega arith) (λ x d. omega arith) t)
  add_all-Tallied (pkg ∷ pkgs) f g e inside unique t =
      let deps = deps_of disk lockfile pkg in
      let (e1, went, t1) = add_edges-Tallied packages pkg deps f g e locked t in
      let (e2, went2, t2) =
        add_all-Tallied pkgs _ _ e1 (λ x h. omega (arith, inside x h)) unique t1 in
      (
        e2,
        rw went went2,
        Tallied-cong packages e2 (λ x. more x f (λ y. left packages [] (deps_of disk lockfile y)))
            (λ x d. more x (λ y. g y d) (λ y. named_by packages (deps_of disk lockfile y) d)) t2,
      )
    where
      clash : bit (text_eq pkg pkg) + occurrences pkg pkgs ≡ 0 → ⊥
      clash h = omega (arith, rw (text_eq_refl pkg) at h)

      locked : occurrences pkg packages ≡ 1
      locked = elim (zero_or_one (occurrences pkg packages) (unique pkg)) [
        | inl missing ↦ absurd (clash (inside pkg missing))
        | inr found ↦ found
      ]

      more :
          (x : Text) (h v : Text → ℕ)
          → h x + (if text_eq pkg x then v pkg else 0) + times (occurrences x pkgs) (v x)
            ≡ h x + times (bit (text_eq pkg x) + occurrences x pkgs) (v x)
      more x h v =
          rw (times-bit (text_eq pkg x) (occurrences x pkgs) (v x))
            (elim (Bool-cases (text_eq pkg x)) [
              | inl same ↦ rw same (rw ((text_eq_iff pkg x).0 same) (omega arith))
              | inr other ↦ rw other (omega arith)
            ])

  abbrev pub no_edges : Edges
  no_edges = record { in_degree = all_zero packages []; dependents = [] }

  no_edges-Tallied : Tallied packages (λ x. 0) (λ x d. 0) no_edges
  unfolding lookup occurrences
  no_edges-Tallied = record {
    degrees = λ x h.
        lookup-all_zero x packages [] ∙ rw (contains_text-occurrences x packages) (rw h refl);
    absent = λ x h.
        lookup-all_zero x packages [] ∙ rw (contains_text-occurrences x packages) (rw h refl);
    unique_keys = all_zero-HasUniqueKeys packages [] tt;
    names = λ x d. refl;
  }

  -- The first loop finds all keys, and counts for each package the dependencies that are packages.
  pub add_all-counts :
      ((x : Text) → occurrences x packages ≤ 1)
      → Gives packages
          (λ x. times (occurrences x packages) (left packages [] (deps_of disk lockfile x)))
          (λ x d. times (occurrences x packages) (named_by packages (deps_of disk lockfile x) d))
          (add_all disk lockfile packages packages no_edges)
  add_all-counts unique =
      let (e, went, t) =
        add_all-Tallied packages (λ x. 0) (λ x d. 0) no_edges (λ x h. h) unique no_edges-Tallied in
      (e, went, Tallied-cong packages e (λ x. omega arith) (λ x d. omega arith) t)
