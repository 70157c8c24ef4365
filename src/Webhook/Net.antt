-- ===== src/Webhook/Net.antt =====
-- What the webhook package calls and does not implement: the HTTP client, the clock's sleep, the
-- JSON coder of payloads and the HMAC.
use video_processor_go.Base.{ℕ, ◌+◌, String, Option, List, Error, Result, Eff, ◌≡◌}
use video_processor_go.Webhook.Payload.{Payload}

pub record Request : Type 0 where
  pub url : String
  pub body : String
  -- name and value, in the order in which they are set
  pub headers : List (String × String)

pub record Net : Type 1 where
  pub World : Type 0
  -- json.Marshal of a payload
  pub marshal : Payload → Result String
  -- the error of http.NewRequest for an address, if it has one
  pub url_error : String → Option Error
  -- the hexadecimal HMAC-SHA256 of a body under a secret
  pub signature : String → String → String
  -- httpClient.Do: the status code of the reply
  pub send_request : Request → Eff World (Result ℕ)
  -- time.Sleep, in nanoseconds
  pub sleep : ℕ → Eff World (Unit {0})

-- How often a request was sent and how long the caller slept: the clients count neither for the
-- other, and nothing else counts.
pub record NetCounts (n : Net) : Type 0 where
  pub sent : n.World → ℕ
  pub slept : n.World → ℕ
  pub sent-send_request : (r : Request) (w : n.World) → sent (n.send_request r w).1 ≡ sent w + 1
  pub slept-send_request : (r : Request) (w : n.World) → slept (n.send_request r w).1 ≡ slept w
  pub sent-sleep : (d : ℕ) (w : n.World) → sent (n.sleep d w).1 ≡ sent w
  pub slept-sleep : (d : ℕ) (w : n.World) → slept (n.sleep d w).1 ≡ slept w + d
