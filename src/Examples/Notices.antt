-- ===== src/Examples/Notices.antt =====
-- The notification at a server that fails twice.
use video_processor_go.Base.{◌*◌, none, [], ◌∷◌, ◌≡◌, refl, ◌>>◌, second, try_in_turn}
use video_processor_go.Webhook.Notify.{send, notify}
use video_processor_go.Webhook.Attempts.{reported, notify-try_in_turn}
use video_processor_go.Examples.Machine.{network, flaky, some_payload}

notify-flaky : (notify network "http://api" "" some_payload flaky).0 ≡ none
unfolding notify send
notify-flaky = refl

notify-try_in_turn_example :
    let attempt = send network "http://api" "s" "{}" in
    let r =
      try_in_turn attempt
        ((network.sleep second >> attempt) ∷ (network.sleep (4 * second) >> attempt) ∷ [])
        flaky in
    notify network "http://api" "s" some_payload flaky ≡ (reported r.0, r.1)
notify-try_in_turn_example =
    notify-try_in_turn network "http://api" "s" some_payload {body = "{}"} flaky refl
