-- ===== src/Webhook/Notify.antt =====
-- internal/webhook/webhook.go: sending a notification, with up to three attempts.
use video_processor_go.Base.{
  ℕ, zero, suc, ◌+◌, ◌*◌, String, ◌||◌, Option, none, some, [], ◌∷◌, Error, Result, ok, err, Eff,
  pure, ◌>>=◌, ◌⧺◌, ltb, leb, str_eq, if◌then◌else◌, second, format_nat,
}
use video_processor_go.Webhook.Payload.{Payload}
use video_processor_go.Webhook.Net.{Net, Request}

module _ (n : Net) where
  open n use {World, marshal, url_error, signature, send_request, sleep}

  unfoldable pub build_request : String → String → String → Request
  build_request url secret body = record {
    url = url;
    body = body;
    headers =
        ("Content-Type", "application/json")
        ∷ (if str_eq secret ""
            then []
            else ("X-Webhook-Signature", "sha256=" ⧺ signature secret body) ∷ []);
  }

  judge : Result ℕ → Option Error
  judge (err e) = some ("failed to send webhook: " ⧺ e)
  judge (ok status) =
      if ltb status 200 || leb 300 status
      then some ("webhook returned unexpected status: " ⧺ format_nat status)
      else none

  post : String → String → String → Option Error → Eff World (Option Error)
  unfolding judge build_request
  post url secret body (some e) = pure (some ("failed to create request: " ⧺ e))
  post url secret body none = do
    reply ← send_request (build_request url secret body)
    pure (judge reply)

  unfoldable pub send : String → String → String → Eff World (Option Error)
  unfolding post
  send url secret body = post url secret body (url_error url)

  -- `if attempt < 3 { sleepFn(attempt * attempt seconds) }`
  back_off : ℕ → Eff World (Unit {0})
  back_off attempt = if ltb attempt 3 then sleep (attempt * attempt * second) else pure tt

  -- The loop from `attempt` on, with the attempts that are left and the last error.
  attempts_from : String → String → String → ℕ → ℕ → Error → Eff World (Option Error)
  unfolding back_off
  attempts_from url secret body zero attempt last w =
      (some ("webhook failed after 3 attempts: " ⧺ last), w)
  attempts_from url secret body (suc left) attempt last w =
      let r = send url secret body w in
      elim r.0 [
        | none ↦ (none, r.1)
        | some e ↦ attempts_from url secret body left (attempt + 1) e (back_off attempt r.1).1
      ]

  deliver : String → String → Result String → Eff World (Option Error)
  unfolding attempts_from
  deliver url secret (err e) = pure (some ("failed to serialize webhook payload: " ⧺ e))
  deliver url secret (ok body) = attempts_from url secret body 3 1 ""

  unfoldable pub notify : String → String → Payload → Eff World (Option Error)
  unfolding deliver
  notify callback_url secret payload = deliver callback_url secret (marshal payload)
