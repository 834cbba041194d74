-- ===== src/Launch/Context.antt =====
-- `LaunchContext` of roscope/entities/launch_context.py, with the part of `ResolverState` that the
-- actions write: launch configurations and environment with their stacks, and declared arguments.
use roscope.Base.{ℕ, Text, Dict, List, [], ◌∷◌, Option}

-- A value of a launch configuration: a text, or a list object by its address. The lists are those
-- of `ros_remaps` and `global_params`; each of their entries is a pair of texts.
pub data Value : Type 0 where
  text : Text → Value
  items : ℕ → Value

abbrev pub Entries : Type 0
Entries = List (Text × Text)

pub record Context : Type 0 where
  pub configurations : Dict Value
  pub configurations_stack : List (Dict Value)
  pub environment : Dict Text
  pub environment_stack : List (Dict Text)
  pub launch_file_dir : Option Text
  -- the list objects, by their addresses
  pub cells : List Entries
  pub declared_arg_names : List Text
  pub declared_by_file : Dict (Dict (Text × Value))
  -- `include_chain`, its end first
  pub include_chain : List Text
  pub root_source_key : Text

-- `dict(d)` copies the keys and values; a list object in it is shared.
unfoldable pub push_configurations : Context → Context
push_configurations ctx = record ctx {
  configurations_stack = ctx.configurations ∷ ctx.configurations_stack;
}

abbrev restore_configurations : List (Dict Value) → Context → Context
restore_configurations [] ctx = ctx
restore_configurations (saved ∷ stack) ctx = record ctx {
  configurations = saved;
  configurations_stack = stack;
}

-- With an empty stack an error is logged and nothing changes.
unfoldable pub pop_configurations : Context → Context
pop_configurations ctx = restore_configurations ctx.configurations_stack ctx

unfoldable pub push_environment : Context → Context
push_environment ctx = record ctx { environment_stack = ctx.environment ∷ ctx.environment_stack }

abbrev restore_environment : List (Dict Text) → Context → Context
restore_environment [] ctx = ctx
restore_environment (saved ∷ stack) ctx = record ctx {
  environment = saved;
  environment_stack = stack;
}

unfoldable pub pop_environment : Context → Context
pop_environment ctx = restore_environment ctx.environment_stack ctx

abbrev source_key : List Text → Text → Text
source_key [] root = root
source_key (file ∷ chain) root = file

unfoldable pub current_source_key : Context → Text
current_source_key ctx = source_key ctx.include_chain ctx.root_source_key
