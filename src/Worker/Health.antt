-- ===== src/Worker/Health.antt =====
-- main.go: the /health handler, and the numbers that main starts the workers with.
use video_processor_go.Base.{
  ℕ, ℤ, pos, String, Bool, Option, none, some, ok, ◌≡◌, ◌==◌, if◌then◌else◌, ◌↔◌, inl, inr, refl,
  Error, Eff, pure, ◌>>=◌, minute, add64, Option-cases, Result-cases, arith,
}
use video_processor_go.Config.{Config}
use video_processor_go.Backend.{Backend}
use video_processor_go.Pipeline.Media.{Media}
use video_processor_go.Queue.Client
use video_processor_go.Storage.Bucket.{Bucket}
use video_processor_go.Storage.Objects
use video_processor_go.Worker.Round.{in_store, in_world, job_timeout}

-- `numWorkers`: 0 asks for one worker for each of the machine's processors. The loop that starts
-- them starts none where the number is negative.
unfoldable pub number_of_workers : ℕ → Config → ℤ
number_of_workers cpus cfg = elim cfg.worker_count [
  | pos n ↦ if n == 0 then pos cpus else pos n
  | ℤ.negsuc n ↦ ℤ.negsuc n
]

-- The timeout that the recovery is started with: a sum of int64, which wraps around.
unfoldable pub stuck_timeout : Media → Config → ℤ
stuck_timeout m cfg = add64 (job_timeout m cfg) minute

-- What a handler writes: http.Error with a text and a code, or a code and a body.
pub data Reply : Type 0 where
  http_error : String → ℕ → Reply
  written : ℕ → String → Reply

module _ (b : Backend) {World : Type 0} (k : Bucket World) where
  after_minio : Option Error → Reply
  after_minio (some e) = Reply.http_error "MinIO unavailable" 503
  after_minio none = Reply.written 200 "OK"

  unfoldable pub after_redis : Option Error → Eff (b.Store × World) Reply
  unfolding after_minio
  after_redis (some e) = pure (Reply.http_error "Redis unavailable" 503)
  after_redis none = do failure ← in_world (Objects.health_check k); pure (after_minio failure)

  unfoldable pub health_check_handler : Eff (b.Store × World) Reply
  health_check_handler = do failure ← in_store (Client.health_check b); after_redis failure

  -- The health check replies 200 exactly if Redis answers the ping and the object store answers
  -- whether the bucket exists, whatever that answer is; it asks the object store only if Redis
  -- answered.
  pub health_check_handler_ok :
      (w : b.Store × World)
      → let (reply, (s, v)) = health_check_handler w in
        ((reply ≡ Reply.written 200 "OK")
          ↔ (((b.ping w.0).0 ≡ none) × ((exists : Bool) × ((k.bucket_exists w.1).0 ≡ ok exists))))
        × ((e : Error) → (b.ping w.0).0 ≡ some e → v ≡ w.1)
  unfolding health_check_handler after_redis Client.health_check Objects.health_check
  health_check_handler_ok w =
      let p = b.ping w.0 in
      let f = k.bucket_exists w.1 in
      elim (Option-cases p.0) [
        | inr (x, e) ↦
            rw e (
              (λ h. absurd (ground (arith, h)), λ (o, q). absurd (ground (arith, o))),
              λ e' h. refl,
            )
        | inl e ↦ rw e (elim (Result-cases f.0) [
          | inl (exists, g) ↦
              rw g ((λ h. (refl, (exists, refl)), λ q. refl), λ e' h. absurd (ground (arith, h)))
          | inr (x, g) ↦ rw g (
            (λ h. absurd (ground (arith, h)), λ (o, (exists, q)). absurd (ground (arith, q))),
            λ e' h. absurd (ground (arith, h)),
          )
        ])
      ]
