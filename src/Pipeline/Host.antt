-- ===== src/Pipeline/Host.antt =====
-- What the pipeline calls of the machine: commands, directories, files, contexts and the metrics.
use video_processor_go.Base.{ℤ, String, Option, List, Error, Eff}

pub record Host : Type 1 where
  pub World : Type 0
  -- context.Context, and context.WithTimeout
  pub Context : Type 0
  pub with_timeout : Context → ℤ → Context
  -- exec.CommandContext(ctx, name, args...): CombinedOutput, Output and Run. The output of a
  -- command that failed comes with its error.
  pub combined_output : Context → String → List String → Eff World (String × Option Error)
  pub output : Context → String → List String → Eff World (String × Option Error)
  pub run : Context → String → List String → Eff World (Option Error)
  -- os.MkdirAll(dir, 0755)
  pub mkdir_all : String → Eff World (Option Error)
  -- os.WriteFile(path, text, 0644)
  pub write_file : String → String → Eff World (Option Error)
  -- filepath.Join, Dir, Base and Ext
  pub join_path : String → String → String
  pub dir_of : String → String
  pub base_of : String → String
  pub ext_of : String → String
  -- the span of a step begins, and its duration, and its error if it has one, are recorded
  pub step_begins : String → Eff World (Unit {0})
  pub step_ends : String → Option Error → Eff World (Unit {0})
