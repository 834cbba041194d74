-- ===== src/Indexer/Order/Loop.antt =====
-- The second loop of `compute_build_order` in roscope/indexer.py: what it keeps, and that it ends.
use roscope.Base.{
  ℕ, zero, suc, ◌+◌, ◌≤◌, Text, Dict, List, [], ◌∷◌, ◌++◌, some, false, ◌≡◌, ◌⊎◌, refl, sym, ap,
  ◌∙◌, subst, arith, inl, inr, Bool-cases, List-cases, lookup, insert, lookup-insert, text_eq,
  text_eq_iff, text_eq_refl, if◌then◌else◌, ◌==◌, length, length-append, bit, occurrences,
  occurrences-append, occurrences-sorted,
}
use roscope.Indexer.Order.{
  pos, ◌>>=◌, names_of, Kahn, pop_last, push_free, release, release_of, kahn_loop,
}
use roscope.Indexer.Order.Counts.{
  occurrences-pop_last, occurrences_self, length-le, change-decrement,
}
use roscope.Indexer.Order.Left.{left, left-snoc, IsOrdered, IsOrdered-snoc}

module _ (packages : List Text) (deps_of : Text → List Text) where
  -- How many dependencies of a package are not done.
  abbrev waits : Text → Kahn → ℕ
  waits x k = left packages k.result (deps_of x)

  abbrev free_share : ℕ → Text → ℕ
  free_share n x = if n == 0 then occurrences x packages else 0

  -- With a list of dependents that are still to be released: the degree of a package counts what it
  -- waits for, and the packages that wait for nothing are in the queue or done, each once.
  pub record Counted (pending : List Text) (k : Kahn) : Type 0 where
    pub degrees :
        (x : Text)
        → occurrences x packages ≡ 1
        → lookup x k.in_degree ≡ some (pos (waits x k + occurrences x pending))
    pub shares :
        (x : Text)
        → occurrences x k.queue + occurrences x k.result
          ≡ free_share (waits x k + occurrences x pending) x

  push_free-occurrences :
      (x dep : Text) (n : ℕ) (queue : List Text)
      → occurrences x (push_free dep (some (pos n)) queue)
        ≡ occurrences x queue + (if n == 0 then bit (text_eq dep x) else 0)
  unfolding occurrences
  push_free-occurrences x dep zero queue =
      occurrences-sorted x (queue ++ dep ∷ [])
      ∙ omega (arith, occurrences-append x queue (dep ∷ []))
  push_free-occurrences x dep (suc n) queue = ground arith

  abbrev released : Text → ℕ → Kahn → Kahn
  released dep n k = record k {
    in_degree = insert dep (pos n) k.in_degree;
    queue = push_free dep (some (pos n)) k.queue;
  }

  released-Counted :
      (dep : Text) (pending : List Text) (k : Kahn)
      → occurrences dep packages ≡ 1
      → Counted (dep ∷ pending) k
      → Counted pending (released dep (waits dep k + occurrences dep pending) k)
  unfolding occurrences
  released-Counted dep pending k locked c = record {
    degrees = λ x h. degree x h;
    shares = λ x. share x;
  }
    where
      share_self :
          occurrences dep k.queue
            + (if waits dep k + occurrences dep pending == 0 then bit (text_eq dep dep) else 0)
            + occurrences dep k.result
          ≡ free_share (waits dep k + occurrences dep pending) dep
      share_self = ground (arith, c.shares dep, text_eq_refl dep)

      degree :
          (x : Text)
          → occurrences x packages ≡ 1
          → lookup x (insert dep (pos (waits dep k + occurrences dep pending)) k.in_degree)
            ≡ some (pos (waits x k + occurrences x pending))
      degree x h = lookup-insert dep x _ k.in_degree ∙ (elim (Bool-cases (text_eq dep x)) [
        | inl same ↦ rw same (rw ((text_eq_iff dep x).0 same) refl)
        | inr other ↦ rw other (c.degrees x h ∙ ap (λ i. some (pos i)) (skip other))
      ])
        where
          skip :
              text_eq dep x ≡ false
              → waits x k + occurrences x (dep ∷ pending) ≡ waits x k + occurrences x pending
          skip other = rw other (omega arith)

      share :
          (x : Text)
          → occurrences x
                (push_free dep (some (pos (waits dep k + occurrences dep pending))) k.queue)
              + occurrences x k.result
            ≡ free_share (waits x k + occurrences x pending) x
      share x =
          rw (push_free-occurrences x dep (waits dep k + occurrences dep pending) k.queue)
            (elim (Bool-cases (text_eq dep x)) [
              | inl same ↦ rw (sym ((text_eq_iff dep x).0 same)) share_self
              | inr other ↦ rw other (ground (arith, c.shares x))
            ])

  -- Only packages are released.
  abbrev pub IsPackages : List Text → Type 0
  IsPackages names = (x : Text) → occurrences x packages ≡ 0 → occurrences x names ≡ 0

  module _ (unique : (x : Text) → occurrences x packages ≤ 1) where
    locked_or_not : (x : Text) → (occurrences x packages ≡ 0) ⊎ (occurrences x packages ≡ 1)
    locked_or_not x = omega (arith, unique x)

    first-locked :
        (dep : Text) (pending : List Text)
        → IsPackages (dep ∷ pending)
        → occurrences dep packages ≡ 1
    first-locked dep pending inside = elim (locked_or_not dep) [
      | inl missing ↦ absurd (omega (arith, inside dep missing, occurrences_self dep pending))
      | inr locked ↦ locked
    ]

    rest-IsPackages :
        (dep : Text) (pending : List Text) → IsPackages (dep ∷ pending) → IsPackages pending
    unfolding occurrences
    rest-IsPackages dep pending inside x missing = omega (arith, inside x missing)

    abbrev ReleasesTo : List Text → Kahn → Type 0
    ReleasesTo pending k =
        (k' : Kahn) × (release pending k ≡ some k') × Counted [] k' × (k'.result ≡ k.result)

    release-Counted :
        (pending : List Text) (k : Kahn)
        → IsPackages pending
        → Counted pending k
        → ReleasesTo pending k
    unfolding release
    release-Counted [] k inside c = (k, refl, c, refl)
    release-Counted (dep ∷ pending) k inside c =
        let locked = first-locked dep pending inside in
        let n = waits dep k + occurrences dep pending in
        let next = released dep n k in
        let (k', went, c', same) =
          release-Counted pending next (rest-IsPackages dep pending inside)
            (released-Counted dep pending k locked c) in
        (k', step k' locked went, c', same)
      where
        step :
            (k' : Kahn)
            → occurrences dep packages ≡ 1
            → release pending (released dep (waits dep k + occurrences dep pending) k) ≡ some k'
            → release (dep ∷ pending) k ≡ some k'
        step k' locked went =
            rw
              (change-decrement dep (waits dep k + occurrences dep pending) k.in_degree
                (c.degrees dep locked ∙ ap (λ i. some (pos i)) one_more))
              (rw (lookup-insert dep dep (pos (waits dep k + occurrences dep pending)) k.in_degree)
                (rw (text_eq_refl dep) went))
          where
            one_more :
                waits dep k + occurrences dep (dep ∷ pending)
                ≡ suc (waits dep k + occurrences dep pending)
            one_more = omega (arith, occurrences_self dep pending)

    module _ (dependents : Dict (List Text))
        (inside : (d : Text) → IsPackages (names_of (lookup d dependents)))
        (counts : (x d : Text)
          → occurrences x packages ≡ 1
          → occurrences d packages ≡ 1
          → occurrences x (names_of (lookup d dependents)) ≡ occurrences d (deps_of x)) where
      abbrev taken : List Text → Text → Kahn → Kahn
      taken queue pkg k = record k { queue = queue; result = k.result ++ pkg ∷ [] }

      -- A package of the queue is locked, free, and not done.
      queued :
          (pkg : Text) (k : Kahn)
          → Counted [] k
          → 1 ≤ occurrences pkg k.queue
          → (occurrences pkg packages ≡ 1) × (waits pkg k ≡ 0) × (occurrences pkg k.result ≡ 0)
      unfolding occurrences
      queued pkg k c there = (
        ground (arith, c.shares pkg, unique pkg),
        ground (arith, c.shares pkg),
        ground (arith, c.shares pkg, unique pkg),
      )

      taken-Counted :
          (queue : List Text) (pkg : Text) (k : Kahn)
          → Counted [] k
          → ((x : Text) → occurrences x queue + bit (text_eq pkg x) ≡ occurrences x k.queue)
          → Counted (names_of (lookup pkg dependents)) (taken queue pkg k)
      unfolding occurrences
      taken-Counted queue pkg k c popped = record {
        degrees = λ x h. c.degrees x h ∙ ap (λ i. some (pos i)) (moved x h);
        shares = λ x.
            omega (arith, popped x, occurrences-append x k.result (pkg ∷ []), c.shares x)
            ∙ share x (locked_or_not x);
      }
        where
          there : 1 ≤ occurrences pkg k.queue
          there = omega (arith, popped pkg, occurrences_self pkg [])

          moved :
              (x : Text)
              → occurrences x packages ≡ 1
              → waits x k + 0
                ≡ waits x (taken queue pkg k) + occurrences x (names_of (lookup pkg dependents))
          moved x h =
              let (locked, free, undone) = queued pkg k c there in
              omega (
                arith,
                counts x pkg h locked,
                left-snoc packages pkg (deps_of x) k.result locked undone,
              )

          share :
              (x : Text)
              → (occurrences x packages ≡ 0) ⊎ (occurrences x packages ≡ 1)
              → free_share (waits x k + 0) x
                ≡ free_share
                    (waits x (taken queue pkg k) + occurrences x (names_of (lookup pkg dependents)))
                    x
          share x (inl missing) = rw missing (ground arith)
          share x (inr h) = ap (λ i. free_share i x) (moved x h)

      -- At the head of the loop.
      pub record IsKahn (k : Kahn) : Type 0 where
        pub counted : Counted [] k
        pub ordered : IsOrdered packages deps_of [] k.result

      abbrev Ends : ℕ → Kahn → Type 0
      Ends fuel k =
          (k' : Kahn) × (kahn_loop dependents fuel k ≡ some k') × IsKahn k' × (k'.queue ≡ [])

      -- No package is done twice.
      IsKahn-length : (k : Kahn) → IsKahn k → length k.queue + length k.result ≤ length packages
      IsKahn-length k h = omega (
        arith,
        length-append k.queue k.result,
        length-le (k.queue ++ k.result) packages
            (λ x. ground (arith, occurrences-append x k.queue k.result, h.counted.shares x)),
      )

      -- One round of the loop.
      Steps : Text → List Text → Kahn → Type 0
      Steps pkg rest k =
          (k' : Kahn) × (release_of dependents (pop_last pkg rest) k ≡ some k')
          × IsKahn k'
          × (length k'.result ≡ suc (length k.result))

      round :
          (pkg : Text) (rest : List Text) (k : Kahn)
          → IsKahn k
          → k.queue ≡ pkg ∷ rest
          → Steps pkg rest k
      unfolding Steps
      round pkg rest k h e =
          let popped = pop_last pkg rest in
          let next = taken popped.0 popped.1 k in
          let counted = taken-Counted popped.0 popped.1 k h.counted from_queue in
          let (k', went, c, same) =
            release-Counted (names_of (lookup popped.1 dependents)) next (inside popped.1)
              counted in
          (
            k',
            went,
            record {
              counted = c;
              ordered = subst (IsOrdered packages deps_of []) (sym same) (
                  IsOrdered-snoc packages deps_of popped.1 [] k.result h.ordered
                    (queued popped.1 k h.counted there).1);
            },
            ap length same ∙ omega (arith, length-append k.result (popped.1 ∷ [])),
          )
        where
          from_queue :
              (x : Text)
              → occurrences x (pop_last pkg rest).0 + bit (text_eq (pop_last pkg rest).1 x)
                ≡ occurrences x k.queue
          from_queue x = occurrences-pop_last x pkg rest ∙ ap (occurrences x) (sym e)

          there : 1 ≤ occurrences (pop_last pkg rest).1 k.queue
          there =
              omega (
                arith,
                from_queue (pop_last pkg rest).1,
                ap bit (text_eq_refl (pop_last pkg rest).1),
              )

      -- With one unit of fuel for each package that is not done, the loop ends with an empty queue.
      pub kahn_loop-IsKahn :
          (fuel : ℕ) (k : Kahn) → IsKahn k → length packages ≤ fuel + length k.result → Ends fuel k
      unfolding kahn_loop Steps
      kahn_loop-IsKahn zero k h enough = elim (List-cases k.queue) [
        | inl empty ↦ (k, rw empty refl, h, empty)
        | inr (pkg, rest, e) ↦ absurd (omega (arith, IsKahn-length k h, ap length e))
      ]
      kahn_loop-IsKahn (suc fuel) k h enough = elim (List-cases k.queue) [
        | inl empty ↦ (k, rw empty refl, h, empty)
        | inr (pkg, rest, e) ↦
            let (k', went, h', longer) = round pkg rest k h e in
            let (last, ends, h'', empty) = kahn_loop-IsKahn fuel k' h' (omega (arith, longer)) in
            (last, looped pkg rest k' last e went ends, h'', empty)
      ]
        where
          looped :
              (pkg : Text) (rest : List Text) (k' last : Kahn)
              → k.queue ≡ pkg ∷ rest
              → release_of dependents (pop_last pkg rest) k ≡ some k'
              → kahn_loop dependents fuel k' ≡ some last
              → kahn_loop dependents (suc fuel) k ≡ some last
          looped pkg rest k' last e went ends =
              rw e (ap (λ o. o >>= kahn_loop dependents fuel) went ∙ ends)
