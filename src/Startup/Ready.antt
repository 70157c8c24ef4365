-- ===== src/Startup/Ready.antt =====
-- When the workers are started (`main` of main.go).
use video_processor_go.Base.{
  Result, err, pos, ℕ, String, Bool, true, false, Option, none, some, ◌≡◌, ◌⊎◌, inl, inr, refl,
  Error, ok, Option-cases, Result-cases, ◌*◌, second,
}
use video_processor_go.Config.{Config}
use video_processor_go.Backend.{Backend}
use video_processor_go.Pipeline.Host.{Host}
use video_processor_go.Pipeline.Media.{Media}
use video_processor_go.Pipeline.Steps.Encoder.{
  resolve_video_encoder, video_encoder_nvenc, video_encoder_cpu,
}
use video_processor_go.Pipeline.Steps.Choices.{resolve_cases}
use video_processor_go.Storage.Bucket.{Bucket}
use video_processor_go.Startup.Services.{System}
use video_processor_go.Startup.{
  Boot, Started, start_up, with_config, with_tracing, with_redis, serve, init_minio_client,
  after_bucket_exists, init_redis_client, load_config, after_dotenv, environment, init,
}

module _ (b : Backend) (h : Host) (k : Bucket h.World) (m : Media) (sys : System h.World)
    (background : h.Context) (cpus : ℕ) where
  -- Asked at `v`, the object store says that the bucket is there, or it then makes it.
  abbrev pub HasBucket : h.World → Type 0
  HasBucket v =
      ((k.bucket_exists v).0 ≡ ok true)
      ⊎ (((k.bucket_exists v).0 ≡ ok false) × ((k.make_bucket (k.bucket_exists v).1).0 ≡ none))

  -- The world as the start from `v` leaves it to the MinIO client's first call: the configuration is
  -- loaded, the encoder chosen, tracing begun and the client made.
  abbrev pub connected : Config → h.World → h.World
  connected cfg v =
      let loaded = (load_config sys v).1 in
      let limited = h.with_timeout background (pos (15 * second)) in
      let chosen = (resolve_video_encoder h limited cfg.video_encoder loaded).1 in
      let traced = (init sys cfg.otel_service_name cfg.otel_endpoint chosen).1 in
      (sys.new_minio cfg.minio_endpoint cfg.minio_root_user cfg.minio_root_password
        cfg.minio_use_ssl traced).1

  -- What holds when the workers are started, of the store of Redis before and after, and of the
  -- world in which the program began.
  pub record IsReady (r : Started h sys) (v : h.World) (s t : b.Store) : Type 0 where
    pub answered : (b.ping s).0 ≡ none
    pub only_pinged : t ≡ (b.ping s).1
    pub bucket : HasBucket (connected r.config v)
    pub read : (sys.parse_env (sys.load_dotenv v).1).0 ≡ ok r.config
    pub encoder : (r.video_encoder ≡ video_encoder_nvenc) ⊎ (r.video_encoder ≡ video_encoder_cpu)

  -- Where the process ends, Redis got a ping at most.
  abbrev pub Starts : Boot (Started h sys) → h.World → b.Store → b.Store → Type 0
  Starts (Boot.fatal text e) v s t = (t ≡ s) ⊎ (t ≡ (b.ping s).1)
  Starts (Boot.up r) v s t = IsReady r v s t

  bucket_lem :
      (cfg : Config) (v : h.World)
      → let n =
          sys.new_minio cfg.minio_endpoint cfg.minio_root_user cfg.minio_root_password
            cfg.minio_use_ssl v in
        ((text : String) × (e : Error) × ((init_minio_client sys k cfg v).0 ≡ Boot.fatal text e))
        ⊎ (((init_minio_client sys k cfg v).0 ≡ Boot.up tt) × HasBucket n.1)
  unfolding init_minio_client
  bucket_lem cfg v =
      let n =
        sys.new_minio cfg.minio_endpoint cfg.minio_root_user cfg.minio_root_password
          cfg.minio_use_ssl v in
      let x = k.bucket_exists n.1 in
      elim (Option-cases n.0) [
        | inr (e, failed) ↦ rw failed (inl (_, e, refl))
        | inl fine ↦ rw fine (found x.0 n.1 refl)
      ]
    where
      found :
          (told : Result Bool) (u : h.World)
          → (k.bucket_exists u).0 ≡ told
          → let r = after_bucket_exists sys k told (k.bucket_exists u).1 in
            ((text : String) × (e : Error) × (r.0 ≡ Boot.fatal text e))
            ⊎ ((r.0 ≡ Boot.up tt) × HasBucket u)
      found (err e) u told = inl (_, e, refl)
      found (ok true) u told = inr (refl, inl told)
      found (ok false) u told = elim (Option-cases (k.make_bucket (k.bucket_exists u).1).0) [
        | inr (e, failed) ↦ rw failed (inl (_, e, refl))
        | inl fine ↦ rw fine (inr (refl, inr (told, refl)))
      ]

  -- From the configuration on.
  redis_lem :
      (cfg : Config) (video_encoder : String) (tracing : Option sys.Provider) (s : b.Store)
      (v u : h.World)
      → connected cfg u
        ≡ (sys.new_minio cfg.minio_endpoint cfg.minio_root_user cfg.minio_root_password
            cfg.minio_use_ssl v).1
      → (sys.parse_env (sys.load_dotenv u).1).0 ≡ ok cfg
      → (video_encoder ≡ video_encoder_nvenc) ⊎ (video_encoder ≡ video_encoder_cpu)
      → let (boot, (t, w)) =
          with_tracing b h k m sys background cpus cfg video_encoder (ok tracing) (s, v) in
        Starts boot u s t
  unfolding with_tracing with_redis serve init_redis_client
  redis_lem cfg video_encoder tracing s v u here read encoder =
      let p = b.ping s in
      elim (Option-cases p.0) [
        | inr (e, failed) ↦ rw failed (inr refl)
        | inl answered ↦ rw answered (elim (bucket_lem cfg v) [
          | inl (text, e, failed) ↦ rw failed (inr refl)
          | inr (fine, bucket) ↦ rw fine (record {
            answered = answered;
            only_pinged = refl;
            bucket = rw here bucket;
            read = read;
            encoder = encoder;
          })
        ])
      ]

  -- The configuration is what the environment was read as.
  load_lem :
      (v : h.World)
      → ((text : String) × (e : Error) × ((load_config sys v).0 ≡ Boot.fatal text e))
        ⊎ ((cfg : Config) × ((load_config sys v).0 ≡ Boot.up cfg)
            × ((sys.parse_env (sys.load_dotenv v).1).0 ≡ ok cfg))
  unfolding load_config
  load_lem v = after (sys.load_dotenv v).0 (sys.load_dotenv v).1
    where
      parsed :
          (u : h.World)
          → let r = environment sys (sys.parse_env u).0 in
            ((text : String) × (e : Error) × (r ≡ Boot.fatal text e))
            ⊎ ((cfg : Config) × (r ≡ Boot.up cfg) × ((sys.parse_env u).0 ≡ ok cfg))
      parsed u = elim (Result-cases (sys.parse_env u).0) [
        | inl (cfg, e) ↦ rw e (inr (cfg, refl, refl))
        | inr (x, e) ↦ rw e (inl (_, x, refl))
      ]

      after :
          (failure : Option (Error × Bool)) (u : h.World)
          → let r = (after_dotenv sys failure u).0 in
            ((text : String) × (e : Error) × (r ≡ Boot.fatal text e))
            ⊎ ((cfg : Config) × (r ≡ Boot.up cfg) × ((sys.parse_env u).0 ≡ ok cfg))
      after (some (e, false)) u = inl (_, e, refl)
      after (some (e, true)) u = parsed u
      after none u = parsed u

  -- `main` starts the workers only if Redis answered the ping, the object store said that the bucket
  -- is there or made it, asked in the world as it is after the configuration, the encoder, tracing
  -- and the making of the client, and the environment, read after .env, gave the configuration; the
  -- encoder is then h264_nvenc or libx264. Whether it starts them or ends the process, Redis got the ping at most: no
  -- queue and no job is touched.
  pub start_up-Starts :
      (s : b.Store) (v : h.World)
      → let (boot, (t, w)) = start_up b h k m sys background cpus (s, v) in Starts boot v s t
  unfolding start_up with_config with_tracing
  start_up-Starts s v = elim (load_lem v) [
    | inl (text, e, failed) ↦ rw failed (inl refl)
    | inr (cfg, loaded, read) ↦
        let limited = h.with_timeout background (pos (15 * second)) in
        let enc = resolve_video_encoder h limited cfg.video_encoder (load_config sys v).1 in
        let tracing = init sys cfg.otel_service_name cfg.otel_endpoint enc.1 in
        let encoder : (enc.0 ≡ video_encoder_nvenc) ⊎ (enc.0 ≡ video_encoder_cpu) =
          elim (resolve_cases h limited cfg.video_encoder (load_config sys v).1) [
            | inl cpu ↦ inr cpu
            | inr (nvenc, x, y, z) ↦ inl nvenc
          ] in
        rw loaded (elim (Result-cases tracing.0) [
          | inr (x, e) ↦ rw e (inl refl)
          | inl (t, e) ↦ rw e (redis_lem cfg enc.0 t s tracing.1 v refl read encoder)
        ])
  ]
