-- ===== src/Startup.antt =====
-- What the program does before its workers start: LoadConfig (config/config.go), Init of
-- internal/telemetry/telemetry.go, InitRedisClient (queue/client.go), InitMinioClient
-- (minio/client.go), and the first part of main (main.go).
pub mod Services
pub mod Ready
use video_processor_go.Base.{
  pos, ℕ, ℤ, ◌*◌, String, Bool, true, false, Option, none, some, Error, Result, ok, err, Eff, pure,
  ◌>>=◌, ◌⧺◌, str_eq, if◌then◌else◌, second,
}
use video_processor_go.Config.{Config}
use video_processor_go.Backend.{Backend}
use video_processor_go.Pipeline.Host.{Host}
use video_processor_go.Pipeline.Media.{Media}
use video_processor_go.Pipeline.Steps.Encoder.{resolve_video_encoder}
use video_processor_go.Storage.Bucket.{Bucket}
use video_processor_go.Storage.Objects.{configure_raw_archived_lifecycle}
use video_processor_go.Worker.Round.{in_store, in_world, job_timeout}
use video_processor_go.Worker.Health.{number_of_workers, stuck_timeout}
use video_processor_go.Startup.Services.{System}

-- What a part of the start comes to: a value, or the end of the process, with the text that is logged
-- and the error.
pub data Boot (A : Type 0) : Type 0 where
  up : A → Boot A
  fatal : String → Error → Boot A

-- What `main` has when it starts the workers.
pub record Started (h : Host) (sys : System h.World) : Type 0 where
  pub config : Config
  pub video_encoder : String
  pub shutdown_tracing : Option sys.Provider
  pub workers : ℤ
  pub recovery_timeout : ℤ

module _ {World : Type 0} (sys : System World) where
  environment : Result Config → Boot Config
  environment (err e) = Boot.fatal "failed to read environment variables" e
  environment (ok config) = Boot.up config

  -- A file that does not exist is no failure.
  after_dotenv : Option (Error × Bool) → Eff World (Boot Config)
  unfolding environment
  after_dotenv (some (e, false)) = pure (Boot.fatal "failed to load .env" e)
  after_dotenv (some (e, true)) = do parsed ← sys.parse_env; pure (environment parsed)
  after_dotenv none = do parsed ← sys.parse_env; pure (environment parsed)

  unfoldable pub load_config : Eff World (Boot Config)
  unfolding after_dotenv
  load_config = do failure ← sys.load_dotenv; after_dotenv failure

  with_resource : sys.Exporter → Result sys.Resource → Eff World (Result (Option sys.Provider))
  with_resource exporter (err e) = pure (err ("failed to create OTel resource: " ⧺ e))
  with_resource exporter (ok resource) = do
    provider ← sys.new_provider exporter resource
    _ ← sys.set_provider provider
    pure (ok (some provider))

  with_exporter : String → Result sys.Exporter → Eff World (Result (Option sys.Provider))
  unfolding with_resource
  with_exporter service_name (err e) = pure (err ("failed to create OTLP exporter: " ⧺ e))
  with_exporter service_name (ok exporter) = do
    resource ← sys.new_resource service_name
    with_resource exporter resource

  -- telemetry.Init; its shutdown function is known by the provider that it shuts down, if any.
  unfoldable pub init : String → String → Eff World (Result (Option sys.Provider))
  unfolding with_exporter
  init service_name endpoint =
      if str_eq endpoint ""
      then (do _ ← sys.set_noop_provider; pure (ok none))
      else (do exporter ← sys.new_exporter endpoint; with_exporter service_name exporter)

  unfoldable pub shutdown : Option sys.Provider → Eff World (Option Error)
  shutdown none = pure none
  shutdown (some provider) = sys.shut_down provider (5 * second)

  module _ (k : Bucket World) where
    with_bucket : Eff World (Boot (Unit {0}))
    with_bucket = do _ ← configure_raw_archived_lifecycle k; pure (Boot.up tt)

    after_make_bucket : Option Error → Eff World (Boot (Unit {0}))
    unfolding with_bucket
    after_make_bucket (some e) = pure (Boot.fatal "Failed to create bucket" e)
    after_make_bucket none = with_bucket

    after_bucket_exists : Result Bool → Eff World (Boot (Unit {0}))
    unfolding after_make_bucket with_bucket
    after_bucket_exists (err e) = pure (Boot.fatal "Failed to check if bucket exists" e)
    after_bucket_exists (ok true) = with_bucket
    after_bucket_exists (ok false) = do failure ← k.make_bucket; after_make_bucket failure

    after_new_minio : Option Error → Eff World (Boot (Unit {0}))
    unfolding after_bucket_exists
    after_new_minio (some e) = pure (Boot.fatal "Failed to initialize MinIO client" e)
    after_new_minio none = do exists ← k.bucket_exists; after_bucket_exists exists

    unfoldable pub init_minio_client : Config → Eff World (Boot (Unit {0}))
    unfolding after_new_minio
    init_minio_client cfg = do
      failure ←
          sys.new_minio cfg.minio_endpoint cfg.minio_root_user cfg.minio_root_password
            cfg.minio_use_ssl
      after_new_minio failure

module _ (b : Backend) where
  after_ping : Option Error → Boot (Unit {0})
  after_ping (some e) = Boot.fatal "Failed to connect Redis client" e
  after_ping none = Boot.up tt

  -- `b` is the client of the configured address.
  unfoldable pub init_redis_client : Eff b.Store (Boot (Unit {0}))
  unfolding after_ping
  init_redis_client = do failure ← b.ping; pure (after_ping failure)

module _ (b : Backend) (h : Host) (k : Bucket h.World) (m : Media) (sys : System h.World)
    (background : h.Context) (cpus : ℕ) where
  serve :
      Config
      → String
      → Option sys.Provider
      → Boot (Unit {0})
      → Eff (b.Store × h.World) (Boot (Started h sys))
  serve cfg video_encoder tracing (Boot.fatal text e) = pure (Boot.fatal text e)
  serve cfg video_encoder tracing (Boot.up done) = do
    _ ← in_world (sys.listen (":" ⧺ cfg.http_port))
    pure (
        Boot.up (record {
          config = cfg;
          video_encoder = video_encoder;
          shutdown_tracing = tracing;
          workers = number_of_workers cpus cfg;
          recovery_timeout = stuck_timeout m cfg;
        }))

  -- initClients, and the HTTP server after it.
  with_redis :
      Config
      → String
      → Option sys.Provider
      → Boot (Unit {0})
      → Eff (b.Store × h.World) (Boot (Started h sys))
  unfolding serve
  with_redis cfg video_encoder tracing (Boot.fatal text e) = pure (Boot.fatal text e)
  with_redis cfg video_encoder tracing (Boot.up done) = do
    connected ← in_world (init_minio_client sys k cfg)
    serve cfg video_encoder tracing connected

  with_tracing :
      Config
      → String
      → Result (Option sys.Provider)
      → Eff (b.Store × h.World) (Boot (Started h sys))
  unfolding with_redis
  with_tracing cfg video_encoder (err e) = pure (Boot.fatal "Failed to initialize tracing" e)
  with_tracing cfg video_encoder (ok tracing) = do
    connected ← in_store (init_redis_client b)
    with_redis cfg video_encoder tracing connected

  with_config : Boot Config → Eff (b.Store × h.World) (Boot (Started h sys))
  unfolding with_tracing
  with_config (Boot.fatal text e) = pure (Boot.fatal text e)
  with_config (Boot.up cfg) = do
    video_encoder ←
        in_world (
          resolve_video_encoder h (h.with_timeout background (pos (15 * second))) cfg.video_encoder)
    tracing ← in_world (init sys cfg.otel_service_name cfg.otel_endpoint)
    with_tracing cfg video_encoder tracing

  -- `main` up to where it starts the workers.
  unfoldable pub start_up : Eff (b.Store × h.World) (Boot (Started h sys))
  unfolding with_config
  start_up = do config ← in_world (load_config sys); with_config config
