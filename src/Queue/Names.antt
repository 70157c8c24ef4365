-- ===== src/Queue/Names.antt =====
-- The three queues of queue/client.go have different names.
use text.Mathlib.TextLemmas.{append-nil, append_cancel_left}
use video_processor_go.Base.{String, ◌≢◌, ◌∙◌, arith, eq_iff, ◌⧺◌}
use video_processor_go.Config.{Config}
use video_processor_go.Queue.State.{processing_queue_name, dead_letter_queue_name}

ne-append : (s t : String) → ◌≢◌ {A = String} "" t → s ≢ s ⧺ t
ne-append s t n e = n (append_cancel_left s "" t (append-nil s ∙ e))

pub request-ne-processing :
    (cfg : Config) → cfg.processing_request_queue ≢ processing_queue_name cfg
unfolding processing_queue_name
request-ne-processing cfg = ne-append _ ":processing" (ground (arith, eq_iff "" ":processing"))

pub request-ne-dead : (cfg : Config) → cfg.processing_request_queue ≢ dead_letter_queue_name cfg
unfolding dead_letter_queue_name
request-ne-dead cfg = ne-append _ ":dead" (ground (arith, eq_iff "" ":dead"))

pub processing-ne-dead : (cfg : Config) → processing_queue_name cfg ≢ dead_letter_queue_name cfg
unfolding processing_queue_name dead_letter_queue_name
processing-ne-dead cfg e =
    let d : ◌≢◌ {A = String} ":processing" ":dead" = ground (arith, eq_iff ":processing" ":dead") in
    d (append_cancel_left cfg.processing_request_queue ":processing" ":dead" e)
