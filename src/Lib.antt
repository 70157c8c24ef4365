-- ===== src/Lib.antt =====
-- The worker takes the ids of uploaded videos from a Redis list, runs ffmpeg over each in a
-- pipeline of steps, stores the results in MinIO and tells the API by a webhook. These files model
-- the queue, the object store's client, a worker's round on a job, the webhook and the pipeline
-- with the steps that call ffmpeg.
--
-- How the parts interact: `processNextMessage` (main.go) takes an id, which Redis moves to the
-- processing list, marks the job as processing, downloads the raw video, runs the pipeline, uploads
-- the result, archives the raw video, uploads the artifacts, pushes the success message and writes
-- the state done. When the attempt is over its deferred function settles the job: a failed one is
-- written as failed and goes back to the request queue or to the dead letter queue, and in every
-- case the id is acknowledged, that is, taken off the processing list. Beside it a recovery loop
-- puts jobs back whose worker is gone. A notice is a payload that is made from the stored state and
-- sent with three attempts.
--
-- What models what:
--   Base                 the integers, results and effects, Go's Atoi, TrimSpace, ToLower, Join,
--                        Split, %d and %03d, and `try_in_turn`, the description of a chain of fallbacks
--   Config               config/config.go, the record
--   Backend              what the queue calls: Redis, the clock, the JSON coder, the circuit breaker.
--                        It is a parameter; Backend/Laws names what is relied on of it, and
--                        Backend/Crash makes of it one that a process can send so many commands to
--   Queue/State, Job     queue/job.go: the state record, setJobState, PublishJob, SetJobProcessing,
--                        SetJobDone, SetJobFailed, RequeueJob, MoveToDLQ, GetJobState
--   Queue/Client         queue/client.go: ConsumeMessage, AcknowledgeMessage, PublishSuccessMessage,
--                        recoverStuckJobs, StartRecovery, GetQueueSize, HealthCheck
--   Queue/View, Updates, Moves, Publish, Consume, Names, Reachable, Undisturbed, Recovery, Rescue,
--   Stranded, Watch, RoundTrip, Order
--                        their effect on the stored states and on the queues
--   Worker/Settle        main.go, the deferred function of processNextMessage
--   Worker/Artifacts     main.go: toJobMetadata, buildJobArtifacts, the payload of notifyWebhook
--   Worker/Retry, Others, Loss, Report
--                        the retry policy, the other jobs, a failed requeue, and what the API hears
--   Worker/Lifecycle     rounds of processNextMessage whose work fails
--   Worker/Round         main.go: processNextMessage with its goroutine, over the store of the queue
--                        beside the world of the pipeline and of the object store
--   Worker/Branches, Refinement, Finish, Turn, Life
--                        a round as the queue sees it, the end of a job that is published, and a
--                        worker's loop on one job
--   Worker/Closed, Keeps, Safe, Crash, Stops, Frozen, Revival, History
--                        a job over the rounds of workers that are stopped between two commands, and
--                        what the recovery does with it
--   Worker/Paths, Uploads, Video
--                        a raw video over a worker's rounds
--   Worker/Shutdown      main.go: the workers, the goroutines of their jobs and the shutdown, an event
--                        at a time; Bound and Drain hold the proofs
--   Worker/Health, Budget
--                        main.go: healthCheckHandler, the numbers main starts with, and the recovery's
--                        timeout against the budget of a job
--   Storage/Bucket       the MinIO client and the local files, a parameter; Storage/Laws names what is
--                        relied on of the object store
--   Storage/Objects      minio/client.go, every function
--   Startup              main.go up to the start of the workers, LoadConfig of config/config.go, Init
--                        of internal/telemetry/telemetry.go, InitRedisClient of queue/client.go and
--                        InitMinioClient of minio/client.go; Services is what these call, a
--                        parameter, and Ready holds the proofs
--   Storage/Trees, Archive, Limit, Again, Untouched, Kept
--                        UploadDirectory, ArchiveRawVideo, DownloadVideo, the two together, and
--                        what the calls leave of the raw videos
--   Breakers             internal/circuitbreaker/circuitbreaker.go: the settings
--   Webhook              internal/webhook/webhook.go: Payload, send, Notify
--   Pipeline/Result      the result record of internal/processor/processor.go
--   Pipeline/Host        processes and files, a parameter
--   Pipeline/Media       floats, number texts and ffprobe's JSON, a parameter
--   Pipeline/Process, Outcomes
--                        ProcessVideo of internal/processor/processor.go with its steps in order, and
--                        what it hands back
--   Pipeline/Quiet       what the steps leave alone of anything that commands and files do not touch
--   Pipeline/Parallel    runNonCriticalStepsParallel of processor.go (Run): the caller and the four
--                        goroutines with the semaphore, the mutex and the wait group, an operation at
--                        a time; Counts, Invariant, Progress and Result hold the proofs
--   Pipeline/Steps       internal/processor/processor-steps: video_encoder.go (Encoder), transcode.go,
--                        audio.go and validate.go (Transcode), streaming.go (Variants, Streaming,
--                        Segment), thumbnail.go and preview.go (Shots), analysis.go (Analysis);
--                        Fallbacks and Choices hold the proofs
--   Examples             a Redis and an object store in memory, a machine whose commands may fail, and
--                        the theorems applied to them
--
-- How state corresponds: a function that calls a service is a function from the service's state to
-- its result and the new state, with the calls in the order of the source. Package variables
-- (client, cfg) are arguments. A Go error is its text. A nil pointer is `none`. Logging and metrics
-- are left out, but for the record of a step's beginning and end. The JSON tags of the structs are
-- in the coder, a parameter: of it only that it reads back what it wrote is used. A `go` statement
-- for a notice is the notice as a result. What a step of a goroutine returns is left open in Pipeline/Parallel, so
-- every order of the steps' commands is covered, and a run is any sequence of operations that the
-- guards allow; the order of its operations is what the memory model gives to the locks. A round of
-- a worker takes what such a run does as an argument, and its deferred calls are over before the
-- next round begins, though in main.go the caller gets the error before the goroutine's deferred
-- calls. Every loop is over a list or a fixed count but the descent of UploadDirectory, which has
-- fuel for the depth of the directory; with the depth given it is enough (Storage/Trees). The store
-- of the queue is one sequence of commands: the commands of other workers between those of one
-- operation are not modelled, nor is the expiry of a state after 24 hours.
--
-- Bounds: a run of the goroutines has at most 33 operations. An `int` is an integer of 64 bits, and
-- `increment` wraps around; the theorems on retries say where they need a count below the maximum.
-- Times are nanoseconds as natural numbers, and `unix` rounds down to seconds. A duration is an
-- int64 and may be negative; the recovery's timeout, a sum, wraps around. A float is its bit pattern,
-- and its operations are a parameter, the conversion to an int64 among them.
--
-- A worker that is stopped, by a crash or by the end of the process, sends no further command: in
-- Backend/Crash its process has a number of Redis commands left, and every number is covered. The
-- rounds of such workers follow one another. In Worker/Shutdown a worker's job is only known by
-- whether its goroutine has sent its error and has ended, so its events may come in any order that
-- the source allows, and the budget of a job may be over at any time.
--
-- The rule by which MinIO deletes what has stood in raw-archived/ for 30 days is set at the start
-- (Startup, configureRawArchivedLifecycle), but what it does later is not modelled: what is said of
-- an archived raw video holds until the rule acts on it.
--
-- Not modelled: the deletion of archived raw videos by that rule, the error that processNextMessage
-- returns where its budget is over before the job sends its own (in Worker/Shutdown that is an event),
-- several workers whose commands interleave on one queue, what the HTTP server does but for the health
-- handler, the goroutine that writes the queue's size to a metric, the machine of the circuit breakers
-- (a third-party package), metrics and spans.
pub mod Base
pub mod Config
pub mod Backend
pub mod Queue
pub mod Webhook
pub mod Pipeline
pub mod Storage
pub mod Breakers
pub mod Worker
pub mod Startup
mod Examples
