-- ===== src/Machine.antt =====
-- What the program takes from the machine: pathlib, os.environ and subprocess. `W` holds the state
-- of the disk and of all else that a process can change.
use roscope.Base.{ℕ, Text, Dict, Bool, List, Option, Unicode, ◌==◌}

-- `subprocess.CompletedProcess`
pub record Completed : Type 0 where
  pub returncode : ℕ
  pub stdout : Text
  pub stderr : Text

abbrev pub succeeded : Completed → Bool
succeeded result = result.returncode == 0

-- Paths are their texts.
pub record Machine (W : Type 0) : Type 0 where
  pub unicode : Unicode
  pub environ : Dict Text
  -- `a / b`
  pub join : Text → Text → Text
  -- `str(Path(path).parent)`
  pub parent : Text → Text
  -- `path.name`
  pub name_of : Text → Text
  pub resolve : Text → W → Text
  pub exists : Text → W → Bool
  pub is_dir : Text → W → Bool
  -- `list(path.iterdir())`, and `none` where it raises `OSError`
  pub list_dir : Text → W → Option (List Text)
  -- `os.walk(path)`: each directory with the names of the files in it
  pub walk : Text → W → List (Text × List Text)
  -- `path.parent.mkdir(parents=True, exist_ok=True)`, and `false` where it raises `OSError`
  pub make_parent : Text → W → Bool × W
  -- a program with its arguments and its working directory; `none` where there is no such
  -- program, the `FileNotFoundError`; a program that cannot be started otherwise is not modelled
  pub run : Text → List Text → Option Text → W → Option Completed × W
