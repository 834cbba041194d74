-- ===== src/Indexer/Order.antt =====
-- `compute_build_order` of roscope/indexer.py: the packages in the order in which they can be built.
pub mod Counts
pub mod Left
pub mod Loop
pub mod Built
pub mod Correct
use roscope.Base.{
  ℕ, zero, suc, ◌+◌, Text, Dict, List, [], ◌∷◌, ◌++◌, Option, none, some, Bool, true, false, lookup,
  insert, contains_text, sorted, if◌then◌else◌, length,
}
use roscope.Indexer.{Lockfile, Dependencies, Disk, read_package_deps, build_deps}

-- `int`, with the names of the library's integers
pub data ℤ : Type 0 where
  pos negsuc : ℕ → ℤ

abbrev pub increment : ℤ → ℤ
increment (pos n) = pos (suc n)
increment (negsuc zero) = pos 0
increment (negsuc (suc n)) = negsuc n

abbrev pub decrement : ℤ → ℤ
decrement (pos zero) = negsuc 0
decrement (pos (suc n)) = pos n
decrement (negsuc n) = negsuc (suc n)

abbrev pub is_zero : ℤ → Bool
is_zero (pos zero) = true
is_zero _ = false

-- A chain of steps that may stop: at a key that a dictionary lacks, or where the fuel runs out.
infixl 5 ◌>>=◌ ◌>>◌
abbrev pub ◌>>=◌ : {A B : Type 0} → Option A → (A → Option B) → Option B
none >>= f = none
some a >>= f = f a

abbrev pub ◌>>◌ : {A B : Type 0} → Option A → Option B → Option B
m >> n = m >>= λ _. n

abbrev pub names_of : Option (List Text) → List Text
names_of none = []
names_of (some names) = names

-- `in_degree[pkg] = f(in_degree[pkg])`
unfoldable pub change : (ℤ → ℤ) → Text → Dict ℤ → Option (Dict ℤ)
change f pkg in_degree = do degree ← lookup pkg in_degree; some (insert pkg (f degree) in_degree)

pub record Edges : Type 0 where
  pub in_degree : Dict ℤ
  pub dependents : Dict (List Text)

-- `dict.fromkeys(packages, 0)`
unfoldable pub all_zero : List Text → Dict ℤ → Dict ℤ
all_zero [] d = d
all_zero (pkg ∷ packages) d = all_zero packages (insert pkg (pos 0) d)

unfoldable pub add_edge : Text → Text → Edges → Option Edges
unfolding change
add_edge pkg dep e = do
  in_degree ← change increment pkg e.in_degree
  some (record {
    in_degree = in_degree;
    dependents = insert dep (names_of (lookup dep e.dependents) ++ pkg ∷ []) e.dependents;
  })

-- `packages` is a set, in the order in which it is iterated.
module _ (packages : List Text) where
  unfoldable pub add_edges : Text → List Text → Edges → Option Edges
  unfolding add_edge
  add_edges pkg [] e = some e
  add_edges pkg (dep ∷ deps) e =
      (if contains_text packages dep then add_edge pkg dep e else some e) >>= add_edges pkg deps

abbrev pub deps_of_read : Option Dependencies → List Text
deps_of_read none = []
deps_of_read (some deps) = build_deps deps

module _ (disk : Disk) (lockfile : Lockfile) where
  -- What a package has to be built after.
  unfoldable pub deps_of : Text → List Text
  unfolding read_package_deps
  deps_of pkg = deps_of_read (read_package_deps disk lockfile pkg)

  -- The loop over the packages.
  unfoldable pub add_all : List Text → List Text → Edges → Option Edges
  unfolding add_edges deps_of
  add_all packages [] e = some e
  add_all packages (pkg ∷ pkgs) e = add_edges packages pkg (deps_of pkg) e >>= add_all packages pkgs

-- The variables of the second loop.
pub record Kahn : Type 0 where
  pub in_degree : Dict ℤ
  pub queue : List Text
  pub result : List Text

abbrev pub free_entry : Text → ℤ → List Text → List Text
free_entry pkg degree names = if is_zero degree then pkg ∷ names else names

-- `pkg for pkg, deg in in_degree.items() if deg == 0`
unfoldable pub free_packages : Dict ℤ → List Text
free_packages [] = []
free_packages ((pkg, degree) ∷ d) = free_entry pkg degree (free_packages d)

-- `queue.pop()`: the end of a list, and what is before it.
unfoldable pub pop_last : Text → List Text → List Text × Text
pop_last x [] = ([], x)
pop_last x (y ∷ ys) = let popped = pop_last y ys in (x ∷ popped.0, popped.1)

abbrev pub push_free : Text → Option ℤ → List Text → List Text
push_free dep none queue = queue
push_free dep (some degree) queue = if is_zero degree then sorted (queue ++ dep ∷ []) else queue

-- The loop over the dependents of a package.
unfoldable pub release : List Text → Kahn → Option Kahn
unfolding change
release [] k = some k
release (dep ∷ deps) k = do
  in_degree ← change decrement dep k.in_degree
  release deps
      (record k { in_degree = in_degree; queue = push_free dep (lookup dep in_degree) k.queue })

-- `while queue`
module _ (dependents : Dict (List Text)) where
  abbrev pub release_of : List Text × Text → Kahn → Option Kahn
  release_of (queue, pkg) k =
      release (names_of (lookup pkg dependents))
        (record k { queue = queue; result = k.result ++ pkg ∷ [] })

  unfoldable pub kahn_loop : ℕ → Kahn → Option Kahn
  unfolding release pop_last
  kahn_loop zero k = elim k.queue [ [] ↦ some k | _ ∷ _ ↦ none ]
  kahn_loop (suc fuel) k = elim k.queue [
    | [] ↦ some k
    | pkg ∷ rest ↦ release_of (pop_last pkg rest) k >>= kahn_loop fuel
  ]

-- The loop that adds what is left.
unfoldable pub add_rest : List Text → List Text → List Text
add_rest [] result = result
add_rest (pkg ∷ packages) result =
    add_rest packages (if contains_text result pkg then result else result ++ pkg ∷ [])

abbrev pub kahn : ℕ → Edges → Option Kahn
kahn fuel e =
    kahn_loop e.dependents fuel
      (record { in_degree = e.in_degree; queue = sorted (free_packages e.in_degree); result = [] })

-- One unit of fuel for each package.
unfoldable pub compute_build_order : Disk → Lockfile → List Text → Option (List Text)
unfolding add_all all_zero kahn_loop free_packages add_rest sorted
compute_build_order disk lockfile packages = do
  edges ←
      add_all disk lockfile packages packages
        (record { in_degree = all_zero packages []; dependents = [] })
  k ← kahn (length packages) edges
  some (add_rest (sorted packages) k.result)
