-- ===== src/Launch/Shared.antt =====
-- The list objects that the scopes share: roscope/entities/actions/set_remap.py inside
-- group_action.py.
use roscope.Base.{Text, true, Option, none, some, lookup, List, ◌++◌, ◌∷◌, [], ℕ, zero, suc, length}
use Prim.Native.Nat.{◌<◌}
use mathlib.Core.List.{append-nil}
use mathlib.Core.Path.{◌≡◌, refl, ap}
use native.Mathlib.Omega.{arith}
use roscope.Launch.Context.{
  Value, text, items, Entries, Context, push_configurations, push_environment, pop_configurations,
  pop_environment,
}
use roscope.Launch.Substitution.{Substitutions, literal, done, next, Platform}
use roscope.Launch.Perform.{cell_at, perform, attempt}
use roscope.Launch.Action.{
  action, set_remap, group_action, append_entry, may_run, leave_scope, Actions, finished, and_then,
  remaps_key, set_cell, execute,
}
use roscope.Launch.Scope.{group_action_restores}

abbrev remaps_of : List Entries → Option Value → Entries
remaps_of cells none = []
remaps_of cells (some (items a)) = cell_at cells a
remaps_of cells (some (text t)) = []

-- The remappings that a node of this context takes: `configurations.get("ros_remaps", [])`.
unfoldable pub global_remaps : Context → Entries
global_remaps ctx = remaps_of ctx.cells (lookup remaps_key ctx.configurations)

cell_at-set_cell :
    (cells : List Entries) (a : ℕ) (entries : Entries)
    → a < length cells
    → cell_at (set_cell cells a entries) a ≡ entries
cell_at-set_cell [] a entries below = absurd (omega arith)
cell_at-set_cell (c ∷ cells) zero entries below = refl
cell_at-set_cell (c ∷ cells) (suc a) entries below = cell_at-set_cell cells a entries (omega arith)

abbrev pub words : Text → Substitutions
words t = next (literal t) done

abbrev pub remapping : Text → Text → Actions
remapping src dst = and_then (action none (set_remap (words src) (words dst))) finished

module _ (p : Platform) where
  remapping-cells :
      (src dst : Text) (ctx : Context) (a : ℕ)
      → lookup remaps_key ctx.configurations ≡ some (items a)
      → (execute p (group_action true (remapping src dst)) ctx).1.cells
        ≡ set_cell ctx.cells a (cell_at ctx.cells a ++ (src, dst) ∷ [])
  unfolding execute leave_scope push_configurations push_environment pop_configurations
      pop_environment append_entry may_run perform attempt
  remapping-cells src dst ctx a shared = rw shared (rw (append-nil src) (rw (append-nil dst) refl))

  -- A scoped group with one `set_remap` of two plain texts, where the context already has
  -- remappings: the list of the context is shared with the scope, so the new pair is in it also
  -- after the group.
  pub set_remap_leaks :
      (src dst : Text) (ctx : Context) (a : ℕ)
      → lookup remaps_key ctx.configurations ≡ some (items a)
      → a < length ctx.cells
      → global_remaps (execute p (group_action true (remapping src dst)) ctx).1
        ≡ global_remaps ctx ++ (src, dst) ∷ []
  unfolding global_remaps
  set_remap_leaks src dst ctx a shared below =
      rw (ap (λ s. s.0.0) (group_action_restores p (remapping src dst) ctx))
        (rw shared (rw (remapping-cells src dst ctx a shared) (cell_at-set_cell _ _ _ below)))

  -- A scoped group, where the context has no remappings: after it there are none either, whatever
  -- its children add.
  pub set_remap_confined :
      (children : Actions) (ctx : Context)
      → lookup remaps_key ctx.configurations ≡ none
      → global_remaps (execute p (group_action true children) ctx).1 ≡ []
  unfolding global_remaps
  set_remap_confined children ctx unset =
      rw (ap (λ s. s.0.0) (group_action_restores p children ctx)) (rw unset refl)
