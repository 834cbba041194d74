-- ===== src/Indexer/Reached.antt =====
-- `resolve_dependencies` of roscope/indexer.py, against the packages that the roots need.
use mathlib.Core.Logic.{⊎_elim}
use roscope.Base.{
  ℕ, zero, suc, ◌≡◌, ◌⊎◌, ◌↔◌, refl, Text, List, [], ◌∷◌, none, some, Option-cases, Bool, true,
  false, lookup, contains_text, contains_text_iff, arith, List-cases, inl, inr, Bool-cases, TextMem,
  subst, sym,
}
use roscope.Indexer.{Lockfile, DependencyMode, Disk, read_package_deps, mode_deps}
use roscope.Indexer.Closure.{
  Search, extend, is_locked, add_deps, visit, search_loop, initial, pushed, resolve_dependencies,
  resolve_dependencies_total,
}

mem-extend :
    (q : Text) (names queue : List Text)
    → TextMem q (extend names queue) ↔ (TextMem q names ⊎ TextMem q queue)
unfolding extend
mem-extend q [] queue = (inr, ⊎_elim (λ h. absurd h) (λ h. h))
mem-extend q (n ∷ names) queue = ground (arith, mem-extend q names (n ∷ queue))

module _ (disk : Disk) (lockfile : Lockfile) (mode : DependencyMode) (roots : List Text) where
  -- The packages that the roots need, directly or through other packages.
  pub data Needed : Text → Type 0 where
    root : {p : Text} → TextMem p roots → Needed p
    dependency : {p q : Text} → Needed p → TextMem q (pushed disk lockfile mode p) → Needed q

  -- The package is in the lockfile and its package.xml cannot be read.
  abbrev pub is_unread : Text → Bool
  is_unread p = elim (read_package_deps disk lockfile p) [
    | none ↦ is_locked lockfile p
    | some d ↦ false
  ]

  record Inv (s : Search) : Type 0 where
    queue_needed : (p : Text) → TextMem p s.queue → Needed p
    visited_needed : (p : Text) → TextMem p s.visited → Needed p
    roots_seen : (p : Text) → TextMem p roots → TextMem p s.visited ⊎ TextMem p s.queue
    closed :
        (p q : Text)
        → TextMem p s.visited
        → TextMem q (pushed disk lockfile mode p)
        → TextMem q s.visited ⊎ TextMem q s.queue
    in_packages :
        (p : Text) → TextMem p s.packages ↔ (TextMem p s.visited × (is_locked lockfile p ≡ true))
    in_external :
        (p : Text) → TextMem p s.external ↔ (TextMem p s.visited × (is_locked lockfile p ≡ false))
    in_missing : (p : Text) → TextMem p s.missing ↔ (TextMem p s.visited × (is_unread p ≡ true))

  -- What a visit changes, for a package that was not visited before.
  record Visited (p : Text) (s t : Search) : Type 0 where
    visited : t.visited ≡ p ∷ s.visited
    queued :
        (q : Text)
        → TextMem q t.queue ↔ (TextMem q (pushed disk lockfile mode p) ⊎ TextMem q s.queue)
    packages :
        (q : Text)
        → TextMem q t.packages ↔ (TextMem q s.packages ⊎ ((p ≡ q) × (is_locked lockfile p ≡ true)))
    external :
        (q : Text)
        → TextMem q t.external ↔ (TextMem q s.external ⊎ ((p ≡ q) × (is_locked lockfile p ≡ false)))
    missing :
        (q : Text) → TextMem q t.missing ↔ (TextMem q s.missing ⊎ ((p ≡ q) × (is_unread p ≡ true)))

  visit-Visited :
      (p : Text) (s : Search)
      → contains_text s.visited p ≡ false
      → Visited p s (visit disk lockfile mode p s)
  unfolding visit add_deps pushed read_package_deps
  visit-Visited p s new = elim (Option-cases (lookup p lockfile.packages)) [
    | inl e ↦ record {
      visited = ground arith;
      queued = λ q. ground arith;
      packages = λ q. ground arith;
      external = λ q. ground arith;
      missing = λ q. ground arith;
    }
    | inr (l, e) ↦ elim (Option-cases (disk p l)) [
      | inl d ↦ record {
        visited = ground arith;
        queued = λ q. ground arith;
        packages = λ q. ground arith;
        external = λ q. ground arith;
        missing = λ q. ground arith;
      }
      | inr (deps, d) ↦ record {
        visited = ground arith;
        queued = λ q. ground (arith, mem-extend q (mode_deps mode deps) s.queue);
        packages = λ q. ground arith;
        external = λ q. ground arith;
        missing = λ q. ground arith;
      }
    ]
  ]

  visit_again :
      (p : Text) (s : Search) → contains_text s.visited p ≡ true → visit disk lockfile mode p s ≡ s
  unfolding visit
  visit_again p s old = rw old

  Inv-new :
      (p : Text) (rest : List Text) (s t : Search)
      → s.queue ≡ p ∷ rest
      → Inv s
      → Visited p (record s { queue = rest }) t
      → Inv t
  Inv-new p rest s t e inv v = record {
    queue_needed = λ q m.
        ⊎_elim (λ d. dependency needed_p d) (λ r. inv.queue_needed q ((in_queue q).1 (inr r)))
          ((v.queued q).0 m);
    visited_needed = λ q m.
        ⊎_elim (λ same. subst Needed same needed_p) (inv.visited_needed q) ((in_visited q).0 m);
    roots_seen = λ q m. ground (arith, inv.roots_seen q m, in_queue q, in_visited q, v.queued q);
    closed = λ a q m d.
        ⊎_elim
          (λ same. inr (
            (v.queued q).1
              (inl (subst (λ x. TextMem q (pushed disk lockfile mode x)) (sym same) d))))
          (λ old. ground (arith, inv.closed a q old d, in_queue q, in_visited q, v.queued q))
          ((in_visited a).0 m);
    in_packages = λ q. ground (arith, inv.in_packages q, in_visited q, v.packages q);
    in_external = λ q. ground (arith, inv.in_external q, in_visited q, v.external q);
    in_missing = λ q. ground (arith, inv.in_missing q, in_visited q, v.missing q);
  }
    where
      in_queue : (q : Text) → TextMem q s.queue ↔ ((p ≡ q) ⊎ TextMem q rest)
      in_queue q = rw e (λ h. h, λ h. h)

      in_visited : (q : Text) → TextMem q t.visited ↔ ((p ≡ q) ⊎ TextMem q s.visited)
      in_visited q = rw v.visited (λ h. h, λ h. h)

      needed_p : Needed p
      needed_p = inv.queue_needed p ((in_queue p).1 (inl refl))

  Inv-visit :
      (p : Text) (rest : List Text) (s : Search)
      → s.queue ≡ p ∷ rest
      → Inv s
      → Inv (visit disk lockfile mode p (record s { queue = rest }))
  Inv-visit p rest s e inv = elim (Bool-cases (contains_text s.visited p)) [
    | inl old ↦ rw (visit_again p s' old) (record {
      queue_needed = λ q m. inv.queue_needed q ((in_queue q).1 (inr m));
      visited_needed = inv.visited_needed;
      roots_seen = λ q m.
          ground (arith, inv.roots_seen q m, in_queue q, (contains_text_iff s.visited p).0 old);
      closed = λ a q m d.
          ground (arith, inv.closed a q m d, in_queue q, (contains_text_iff s.visited p).0 old);
      in_packages = inv.in_packages;
      in_external = inv.in_external;
      in_missing = inv.in_missing;
    })
    | inr new ↦ Inv-new p rest s (visit disk lockfile mode p s') e inv (visit-Visited p s' new)
  ]
    where
      s' : Search
      s' = record s { queue = rest }

      in_queue : (q : Text) → TextMem q s.queue ↔ ((p ≡ q) ⊎ TextMem q rest)
      in_queue q = rw e (λ h. h, λ h. h)

  search_loop-empty :
      (fuel : ℕ) (s t : Search)
      → s.queue ≡ []
      → search_loop disk lockfile mode fuel s ≡ some t
      → s ≡ t
  unfolding search_loop
  search_loop-empty zero s t empty e = ground arith
  search_loop-empty (suc fuel) s t empty e = ground arith

  stopped :
      (fuel : ℕ) (s t : Search)
      → Inv s
      → s.queue ≡ []
      → search_loop disk lockfile mode fuel s ≡ some t
      → Inv t × (t.queue ≡ [])
  stopped fuel s t inv empty e =
      let same = search_loop-empty fuel s t empty e in
      (subst Inv same inv, subst (λ (x : Search). x.queue ≡ []) same empty)

  search_loop-Inv :
      (fuel : ℕ) (s t : Search)
      → Inv s
      → search_loop disk lockfile mode fuel s ≡ some t
      → Inv t × (t.queue ≡ [])
  unfolding search_loop
  search_loop-Inv zero s t inv e = elim (List-cases s.queue) [
    | inl empty ↦ stopped zero s t inv empty e
    | inr (p, rest, q) ↦ ground arith
  ]
  search_loop-Inv (suc fuel) s t inv e = elim (List-cases s.queue) [
    | inl empty ↦ stopped (suc fuel) s t inv empty e
    | inr (p, rest, q) ↦
        search_loop-Inv fuel (visit disk lockfile mode p (record s { queue = rest })) t
          (Inv-visit p rest s q inv) (rw (q, search_loop) at e)
  ]

  Inv-initial : Inv (initial disk lockfile mode roots)
  Inv-initial = record {
    queue_needed = λ p m. root m;
    visited_needed = λ p m. absurd m;
    roots_seen = λ p m. inr m;
    closed = λ p q m d. absurd m;
    in_packages = λ p. (λ m. absurd m, λ m. absurd (m.0));
    in_external = λ p. (λ m. absurd m, λ m. absurd (m.0));
    in_missing = λ p. (λ m. absurd m, λ m. absurd (m.0));
  }

  complete : (t : Search) → Inv t → t.queue ≡ [] → {p : Text} → Needed p → TextMem p t.visited
  complete t inv empty (root {p} m) =
      ⊎_elim (λ seen. seen) (λ q. absurd (subst (TextMem p) empty q)) (inv.roots_seen p m)
  complete t inv empty (dependency {p} {q} n d) =
      ⊎_elim (λ seen. seen) (λ w. absurd (subst (TextMem q) empty w))
        (inv.closed p q (complete t inv empty n) d)

  -- The search ends, and sorts what the roots need: `packages` holds the needed packages of the
  -- lockfile, `external` those that it lacks, and `missing` those of the lockfile whose package.xml
  -- could not be read.
  pub resolve_dependencies_finds :
      (t : Search) × (resolve_dependencies disk lockfile mode roots ≡ some t)
      × ((p : Text) → TextMem p t.packages ↔ (Needed p × (is_locked lockfile p ≡ true)))
      × ((p : Text) → TextMem p t.external ↔ (Needed p × (is_locked lockfile p ≡ false)))
      × ((p : Text) → TextMem p t.missing ↔ (Needed p × (is_unread p ≡ true)))
  unfolding resolve_dependencies
  resolve_dependencies_finds =
      let (t, e) = resolve_dependencies_total disk lockfile mode roots in
      let (inv, empty) = search_loop-Inv _ (initial disk lockfile mode roots) t Inv-initial e in
      let visited = λ (p : Text).
        let r : TextMem p t.visited ↔ Needed p = (inv.visited_needed p, complete t inv empty) in
        r in
      (
        t,
        e,
        λ p. swap_first (visited p) (inv.in_packages p),
        λ p. swap_first (visited p) (inv.in_external p),
        λ p. swap_first (visited p) (inv.in_missing p),
      )
    where
      swap_first : {A B C D : Type 0} → A ↔ B → C ↔ (A × D) → C ↔ (B × D)
      swap_first ab cad = (λ c. (ab.0 (cad.0 c).0, (cad.0 c).1), λ bd. cad.1 (ab.1 bd.0, bd.1))
