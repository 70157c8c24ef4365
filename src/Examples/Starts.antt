-- ===== src/Examples/Starts.antt =====
-- A start of the program over the services in memory.
use video_processor_go.Base.{String, none, some, ok, true, false}
use video_processor_go.Startup.{start_up}
use video_processor_go.Startup.Services.{System}
use video_processor_go.Startup.Ready.{Starts, start_up-Starts}
use video_processor_go.Examples.Memory.{memory, settings, quiet}
use video_processor_go.Examples.Machine.{machine}
use video_processor_go.Examples.Runs.{media}
use video_processor_go.Examples.Rounds.{steady}
use video_processor_go.Base.{ℕ}

-- There is no .env file, and everything else succeeds.
abbrev calm : System ℕ
calm = record {
  load_dotenv = λ w. (some ("no such file", true), w);
  parse_env = λ w. (ok settings, w);
  Exporter = String;
  Resource = String;
  Provider = String;
  new_exporter = λ endpoint w. (ok endpoint, w);
  new_resource = λ name w. (ok name, w);
  new_provider = λ exporter resource w. (resource, w);
  set_noop_provider = λ w. (tt, w);
  set_provider = λ provider w. (tt, w);
  shut_down = λ provider d w. (none, w);
  new_minio = λ endpoint user password ssl w. (none, w);
  listen = λ address w. (tt, w);
}

start_up-Starts_example :
    let (boot, (t, w)) = start_up (memory false) machine steady media calm 0 8 (quiet, 3) in
    Starts (memory false) machine steady media calm 0 8 boot 3 quiet t
start_up-Starts_example = start_up-Starts (memory false) machine steady media calm 0 8 quiet 3
