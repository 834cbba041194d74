-- ===== src/Indexer/Order/Correct.antt =====
-- The order that `compute_build_order` of roscope/indexer.py returns.
use roscope.Base.{
  ℕ, zero, suc, ◌+◌, ◌≤◌, ◌<◌, Text, List, [], ◌∷◌, ◌++◌, some, true, false, not, ◌≡◌, ◌⊎◌, refl,
  ap, ◌∙◌, arith, inl, inr, Bool-cases, lookup, contains_text, text_eq, text_eq_iff, sorted,
  if◌then◌else◌, ◌==◌, length, bit, occurrences, occurrences-append, occurrences-sorted,
  contains_text-occurrences,
}
use roscope.Indexer.{Lockfile, Disk}
use roscope.Indexer.Order.{
  pos, names_of, Edges, deps_of, free_packages, Kahn, add_rest, compute_build_order,
}
use roscope.Indexer.Order.Counts.{occurrences_self}
use roscope.Indexer.Order.Left.{left, is_left, IsOrdered}
use roscope.Indexer.Order.Loop.{Counted, IsPackages, kahn_loop-IsKahn}
use roscope.Indexer.Order.Built.{
  times, named_by, is_free, zero_or_one, Tallied, occurrences-free_packages, add_all-counts,
}

occurrences-add_rest :
    (x : Text) (names result : List Text)
    → occurrences x result ≤ 1
    → occurrences x names ≤ 1
    → occurrences x (add_rest names result)
      ≡ (if occurrences x result == 0 then occurrences x names else 1)
unfolding add_rest occurrences
occurrences-add_rest x [] result h k = ground arith
occurrences-add_rest x (name ∷ names) result h k = elim (Bool-cases (contains_text result name)) [
  | inl old ↦ rw old (
      occurrences-add_rest x names result h (omega (arith, k))
      ∙ found (contains_text-occurrences name result ∙ refl) old)
  | inr new ↦
      rw new (
        occurrences-add_rest x names (result ++ name ∷ []) (room new) (omega (arith, k))
        ∙ added new)
]
  where
    known : contains_text result name ≡ not (occurrences name result == 0)
    known = contains_text-occurrences name result

    found :
        contains_text result name ≡ not (occurrences name result == 0)
        → contains_text result name ≡ true
        → (if occurrences x result == 0 then occurrences x names else 1)
          ≡ (if occurrences x result == 0 then bit (text_eq name x) + occurrences x names else 1)
    found e old = ground (arith, text_eq_iff name x)

    room : contains_text result name ≡ false → occurrences x (result ++ name ∷ []) ≤ 1
    room new = ground (arith, text_eq_iff name x, known, occurrences-append x result (name ∷ []))

    added :
        contains_text result name ≡ false
        → (if occurrences x (result ++ name ∷ []) == 0 then occurrences x names else 1)
          ≡ (if occurrences x result == 0 then bit (text_eq name x) + occurrences x names else 1)
    added new = ground (arith, text_eq_iff name x, known, occurrences-append x result (name ∷ []))

free : (n : ℕ) → bit (is_free (some (pos n))) + 0 ≡ (if n == 0 then 1 else 0)
free zero = refl
free (suc n) = ground arith

add_rest-all :
    (names result : List Text)
    → ((x : Text) → 1 ≤ occurrences x names → contains_text result x ≡ true)
    → add_rest names result ≡ result
unfolding add_rest occurrences
add_rest-all [] result h = refl
add_rest-all (name ∷ names) result h =
    rw (h name (omega (arith, occurrences_self name names)))
      (add_rest-all names result (λ x there. h x (omega (arith, there))))

module _ (disk : Disk) (lockfile : Lockfile) (packages : List Text)
    (unique : (x : Text) → occurrences x packages ≤ 1) where
  abbrev needs : Text → List Text
  needs = deps_of disk lockfile

  -- What the loops compute: the order of the packages that can be put in order.
  abbrev pub IsResult : Kahn → Type 0
  IsResult k =
      (compute_build_order disk lockfile packages ≡ some (add_rest (sorted packages) k.result))
      × IsOrdered packages needs [] k.result
      × ((x : Text)
          → occurrences x k.result
            ≡ (if left packages k.result (needs x) == 0 then occurrences x packages else 0))

  first_kahn : Edges → Kahn
  first_kahn e = record {
    in_degree = e.in_degree;
    queue = sorted (free_packages e.in_degree);
    result = [];
  }

  first-Counted :
      (e : Edges)
      → Tallied packages
          (λ x. times (occurrences x packages) (left packages [] (needs x)))
          (λ x d. times (occurrences x packages) (named_by packages (needs x) d))
          e
      → Counted packages needs [] (first_kahn e)
  unfolding first_kahn occurrences
  first-Counted e t = record {
    degrees = λ x h. t.degrees x h ∙ ap (λ i. some (pos i)) (once x h);
    shares = λ x. share x (zero_or_one _ (unique x));
  }
    where
      once :
          (x : Text)
          → occurrences x packages ≡ 1
          → times (occurrences x packages) (left packages [] (needs x))
            ≡ left packages [] (needs x) + 0
      once x h = rw h (omega arith)

      share :
          (x : Text)
          → (occurrences x packages ≡ 0) ⊎ (occurrences x packages ≡ 1)
          → occurrences x (sorted (free_packages e.in_degree)) + 0
            ≡ (if left packages [] (needs x) + 0 == 0 then occurrences x packages else 0)
      share x (inl missing) = rw (occurrences-sorted x (free_packages e.in_degree)) (
          rw (occurrences-free_packages x e.in_degree t.unique_keys)
            (rw (t.absent x missing) (rw missing (ground arith))))
      share x (inr locked) = rw (occurrences-sorted x (free_packages e.in_degree)) (
          rw (occurrences-free_packages x e.in_degree t.unique_keys)
            (rw (t.degrees x locked) (rw locked (free (left packages [] (needs x) + 0)))))

  computed : (k : Kahn) × IsResult k
  unfolding compute_build_order occurrences first_kahn
  computed =
      let (e, went, t) = add_all-counts disk lockfile packages unique in
      let (k, ends, h, empty) =
        kahn_loop-IsKahn packages needs unique e.dependents (inside e t) (counts e t)
          (length packages) (first_kahn e) (record { counted = first-Counted e t; ordered = tt })
          (omega arith) in
      (
        k,
        (
          rw went (rw ends refl),
          h.ordered,
          λ x. omega (arith, h.counted.shares x, ap (occurrences x) empty) ∙ no_pending _ x,
        ),
      )
    where
      inside :
          (e : Edges)
          → Tallied packages
              (λ x. times (occurrences x packages) (left packages [] (needs x)))
              (λ x d. times (occurrences x packages) (named_by packages (needs x) d))
              e
          → (d : Text) → IsPackages packages needs (names_of (lookup d e.dependents))
      inside e t d x missing = t.names x d ∙ rw missing refl

      counts :
          (e : Edges)
          → Tallied packages
              (λ x. times (occurrences x packages) (left packages [] (needs x)))
              (λ x d. times (occurrences x packages) (named_by packages (needs x) d))
              e
          → (x d : Text) → occurrences x packages ≡ 1
          → occurrences d packages ≡ 1
          → occurrences x (names_of (lookup d e.dependents)) ≡ occurrences d (needs x)
      counts e t x d locked known =
          t.names x d
          ∙ rw locked (rw (contains_text-occurrences d packages) (rw known (omega arith)))

      no_pending :
          (n : ℕ) (x : Text)
          → (if n + 0 == 0 then occurrences x packages else 0)
            ≡ (if n == 0 then occurrences x packages else 0)
      no_pending n x = ap (λ i. if i == 0 then occurrences x packages else 0) same
        where
          same : n + 0 ≡ n
          same = omega arith

  -- On a set of packages the order is computed, and has each of them exactly once, and nothing else.
  pub compute_build_order-once :
      (order : List Text) × (compute_build_order disk lockfile packages ≡ some order)
      × ((x : Text) → occurrences x order ≡ occurrences x packages)
  compute_build_order-once =
      let (k, (went, ordered, shares)) = computed in
      (add_rest (sorted packages) k.result, went, λ x. all_once k x (shares x))
    where
      all_once :
          (k : Kahn) (x : Text)
          → occurrences x k.result
            ≡ (if left packages k.result (needs x) == 0 then occurrences x packages else 0)
          → occurrences x (add_rest (sorted packages) k.result) ≡ occurrences x packages
      all_once k x share =
          occurrences-add_rest x (sorted packages) k.result (ground (arith, share, unique x))
            (omega (arith, unique x, occurrences-sorted x packages))
          ∙ ground (arith, share, unique x, occurrences-sorted x packages)

  -- Every dependency of a package that is a package itself has a smaller rank.
  abbrev pub IsRank : (Text → ℕ) → Type 0
  IsRank rank =
      (x d : Text)
      → occurrences x packages ≡ 1
      → occurrences d packages ≡ 1
      → 1 ≤ occurrences d (needs x)
      → rank d < rank x

  left-none :
      (done deps : List Text)
      → ((d : Text) → 1 ≤ occurrences d deps → is_left packages done d ≡ false)
      → left packages done deps ≡ 0
  unfolding left occurrences
  left-none done [] h = refl
  left-none done (d ∷ deps) h =
      rw (h d (omega (arith, occurrences_self d deps)))
        (omega (arith, left-none done deps (λ x there. h x (omega (arith, there)))))

  module _ (rank : Text → ℕ) (ranked : IsRank rank) (k : Kahn)
      (shares : (x : Text)
        → occurrences x k.result
          ≡ (if left packages k.result (needs x) == 0 then occurrences x packages else 0)) where
    all_free :
        (n : ℕ) (x : Text)
        → rank x < n
        → occurrences x packages ≡ 1
        → left packages k.result (needs x) ≡ 0
    all_free zero x below locked = absurd (omega (arith, below))
    all_free (suc n) x below locked =
        left-none k.result (needs x)
          (λ d named. not_left d named (all_free n d) (zero_or_one _ (unique d)))
      where
        not_left :
            (d : Text)
            → 1 ≤ occurrences d (needs x)
            → (rank d < n → occurrences d packages ≡ 1 → left packages k.result (needs d) ≡ 0)
            → (occurrences d packages ≡ 0) ⊎ (occurrences d packages ≡ 1)
            → is_left packages k.result d ≡ false
        not_left d named lower (inl missing) =
            rw (contains_text-occurrences d packages) (rw missing refl)
        not_left d named lower (inr known) =
            let done : occurrences d k.result ≡ 1 =
              shares d ∙ rw (lower (omega (arith, ranked x d locked known named)) known) known in
            rw (contains_text-occurrences d k.result) (rw done (ground arith))

    all_done : (x : Text) → 1 ≤ occurrences x (sorted packages) → contains_text k.result x ≡ true
    all_done x there =
        let locked : occurrences x packages ≡ 1 =
          omega (arith, occurrences-sorted x packages, unique x) in
        let done : occurrences x k.result ≡ 1 =
          shares x ∙ rw (all_free (suc (rank x)) x (omega arith) locked) locked in
        rw (contains_text-occurrences x k.result) (rw done refl)

  -- On a set of packages whose dependencies on each other have no cycle, which a rank shows, the order
  -- is computed, and no package comes before one that it needs for its build.
  pub compute_build_order-IsOrdered :
      (rank : Text → ℕ)
      → IsRank rank
      → (order : List Text) × (compute_build_order disk lockfile packages ≡ some order)
        × IsOrdered packages needs [] order
  compute_build_order-IsOrdered rank ranked =
      let (k, (went, ordered, shares)) = computed in
      (
        k.result,
        went ∙ ap some (add_rest-all (sorted packages) k.result (all_done rank ranked k shares)),
        ordered,
      )
