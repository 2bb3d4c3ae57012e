-- ===== src/Os.antt =====
-- What the parts that install, update and mirror settings ask of the operating system: the calls of
-- os and os/exec that they make, over an unknown state of the machine. An error is its message.
pub mod Files
use wakehub.Base.{String, List, Option, Bool}

-- What exec.Command(...).CombinedOutput returns.
pub record Ran : Type 0 where
  pub out : String
  pub failed : Option String

-- What os.ReadFile returns: the bytes, or an error, which is os.ErrNotExist or another.
pub data Read : Type 0 where
  contents : String → Read
  absent : String → Read
  unreadable : String → Read

pub record Os (W : Type 0) : Type 0 where
  pub look_path : String → W → Bool
  pub exec : String → List String → W → W × Ran
  -- whether os.Stat has no error
  pub exists : String → W → Bool
  pub read_file : String → W → Read
  pub mkdir_all : String → W → W × Option String
  pub write_file : String → String → W → W × Option String
  pub remove : String → W → W × Option String
  pub rename : String → String → W → W × Option String
