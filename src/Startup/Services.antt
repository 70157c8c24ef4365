-- ===== src/Startup/Services.antt =====
-- What the start of the program calls and does not implement: the environment and .env, the OpenTelemetry
-- SDK, the constructor of the MinIO client, and the HTTP server.
use video_processor_go.Base.{ℕ, String, Bool, Option, Error, Result, Eff}
use video_processor_go.Config.{Config}

pub record System (World : Type 0) : Type 1 where
  -- godotenv.Load, for its error and whether that is os.ErrNotExist; env.Parse
  pub load_dotenv : Eff World (Option (Error × Bool))
  pub parse_env : Eff World (Result Config)
  -- otlptracehttp.New, for an endpoint; resource.New, for the name of the service;
  -- sdktrace.NewTracerProvider; otel.SetTracerProvider, of one that does nothing or of that one;
  -- tp.Shutdown, with a timeout
  pub Exporter : Type 0
  pub Resource : Type 0
  pub Provider : Type 0
  pub new_exporter : String → Eff World (Result Exporter)
  pub new_resource : String → Eff World (Result Resource)
  pub new_provider : Exporter → Resource → Eff World Provider
  pub set_noop_provider : Eff World (Unit {0})
  pub set_provider : Provider → Eff World (Unit {0})
  pub shut_down : Provider → ℕ → Eff World (Option Error)
  -- minio.New, of the endpoint, the user, the password and whether to use TLS
  pub new_minio : String → String → String → Bool → Eff World (Option Error)
  -- the goroutine with http.ListenAndServe
  pub listen : String → Eff World (Unit {0})
