-- ===== src/Webhook/Attempts.antt =====
-- The attempts of a notification: which are made, how many, and how long they wait.
use video_processor_go.Base.{
  ◌+◌, ◌*◌, ◌≤◌, String, Option, none, some, [], ◌∷◌, ◌≡◌, arith, Error, ok, ◌>>◌, ◌⧺◌, second,
  try_in_turn,
}
use video_processor_go.Webhook.Payload.{Payload}
use video_processor_go.Webhook.Net.{Net, NetCounts}
use video_processor_go.Webhook.Notify.{send, notify}

-- The error of the last attempt, as `notify` reports it.
abbrev pub reported : Option Error → Option Error
reported none = none
reported (some e) = some ("webhook failed after 3 attempts: " ⧺ e)

module _ (n : Net) (url secret : String) (payload : Payload) where
  -- A payload that can be written is sent up to three times, one second after the first failure and
  -- four seconds after the second: the first success ends the call with no error, and the error of
  -- the third attempt is the one reported.
  pub notify-try_in_turn :
      {body : String} (w : n.World)
      → n.marshal payload ≡ ok body
      → let attempt = send n url secret body in
        let r =
          try_in_turn attempt
            ((n.sleep second >> attempt) ∷ (n.sleep (4 * second) >> attempt) ∷ [])
            w in
        notify n url secret payload w ≡ (reported r.0, r.1)
  unfolding notify try_in_turn
  notify-try_in_turn {body} w e = rw e (ground arith)

module _ (n : Net) (counts : NetCounts n) (url secret : String) (payload : Payload) where
  open counts use {sent, slept}

  sent-send : (body : String) (w : n.World) → sent (send n url secret body w).1 ≤ sent w + 1
  unfolding send
  sent-send body w = grind (arith, counts.sent-send_request)

  slept-send : (body : String) (w : n.World) → slept (send n url secret body w).1 ≡ slept w
  unfolding send
  slept-send body w = grind (arith, counts.slept-send_request)

  -- Whatever the replies are, a notification sends at most three requests and sleeps for at most
  -- five seconds.
  pub notify_bounds :
      (w : n.World)
      → let t = (notify n url secret payload w).1 in
        (sent t ≤ sent w + 3) × (slept t ≤ slept w + 5 * second)
  unfolding notify
  notify_bounds w = grind (arith, sent-send, slept-send, counts.sent-sleep, counts.slept-sleep)
