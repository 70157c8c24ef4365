-- ===== src/Examples/Machine.antt =====
-- A machine whose commands fail as often as a script says, and a network that replies by a script.
use video_processor_go.Base.{
  pos_part, ℕ, ◌+◌, String, true, Option, none, some, List, [], ◌∷◌, Error, Result, ok, err, ◌⧺◌,
  refl,
}
use video_processor_go.Pipeline.Host.{Host}
use video_processor_go.Webhook.Net.{Net, NetCounts}
use video_processor_go.Webhook.Payload.{Payload, blank_payload}

-- The world of the machine: how many more commands fail.
unfoldable pub outcome : ℕ → String × Option Error
outcome ℕ.zero = ("h264_nvenc", none)
outcome (ℕ.suc n) = ("", some "exit status 1")

abbrev pub fewer : ℕ → ℕ
fewer ℕ.zero = 0
fewer (ℕ.suc n) = n

abbrev pub machine : Host
machine = record {
  World = ℕ;
  Context = ℕ;
  with_timeout = λ c d. pos_part d;
  combined_output = λ c name args w. (outcome w, fewer w);
  output = λ c name args w. (outcome w, fewer w);
  run = λ c name args w. ((outcome w).1, fewer w);
  mkdir_all = λ dir w. (none, w);
  write_file = λ path text w. (none, w);
  join_path = λ a b. a ⧺ "/" ⧺ b;
  dir_of = λ p. "/tmp";
  base_of = λ p. "v1_input.mp4";
  ext_of = λ p. ".mp4";
  step_begins = λ name w. (tt, w);
  step_ends = λ name e w. (tt, w);
}

pub record Traffic : Type 0 where
  pub replies : List ℕ
  pub sent : ℕ
  pub slept : ℕ

abbrev pub next_reply : List ℕ → Result ℕ
next_reply [] = err "connection refused"
next_reply (r ∷ rs) = ok r

abbrev pub rest_replies : List ℕ → List ℕ
rest_replies [] = []
rest_replies (r ∷ rs) = rs

abbrev pub network : Net
network = record {
  World = Traffic;
  marshal = λ p. ok "{}";
  url_error = λ url. none;
  signature = λ secret body. "00ff";
  send_request = λ r w.
      (next_reply w.replies, record w { replies = rest_replies w.replies; sent = w.sent + 1 });
  sleep = λ d w. (tt, record w { slept = w.slept + d });
}

abbrev pub network_counts : NetCounts network
network_counts = record {
  sent = λ w. w.sent;
  slept = λ w. w.slept;
  sent-send_request = λ r w. refl;
  slept-send_request = λ r w. refl;
  sent-sleep = λ d w. refl;
  slept-sleep = λ d w. refl;
}

-- A server that fails twice.
abbrev pub flaky : Traffic
flaky = record { replies = 500 ∷ 503 ∷ 200 ∷ []; sent = 0; slept = 0 }

abbrev pub some_payload : Payload
some_payload = blank_payload "v1" true
