-- ===== src/Queue/Consume.antt =====
-- What consuming a message leaves (ConsumeMessage of queue/client.go).
use video_processor_go.Base.{
  String, List, [], ◌∷◌, ◌++◌, ◌≡◌, ◌≢◌, inl, inr, sym, ◌∙◌, ap, arith, Result, ok, is_ok,
  Option-cases,
}
use video_processor_go.Config.{Config}
use video_processor_go.Backend.{Backend, execute}
use video_processor_go.Backend.Laws.{BackendLaws}
use video_processor_go.Queue.State.{processing_queue_name}
use video_processor_go.Queue.Client.{consume_message}
use video_processor_go.Queue.Names.{request-ne-processing}

module _ (b : Backend) (laws : BackendLaws b) where
  open laws use {value, list}

  -- The reply's id has moved from the end of the request queue to the head of the processing list.
  pub record Takes (cfg : Config) (s : b.Store) (reply : Result String) (t : b.Store) : Type 0 where
    pub taken :
        (video_id : String)
        → reply ≡ ok video_id
        → (rest : List String) × (list s cfg.processing_request_queue ≡ rest ++ (video_id ∷ []))
          × (list t cfg.processing_request_queue ≡ rest)
          × (list t (processing_queue_name cfg) ≡ video_id ∷ list s (processing_queue_name cfg))
    pub others :
        (q : String)
        → cfg.processing_request_queue ≢ q
        → processing_queue_name cfg ≢ q
        → list t q ≡ list s q
    pub values : (k : String) → value t k ≡ value s k

  -- Consuming a message, whatever commands fail and whether or not the circuit is open, changes no
  -- stored state and no queue but the request queue and the processing list. If it reports an id,
  -- that id was the last of the request queue, has left it and is at the head of the processing
  -- list, and the rest of both is in the same order.
  pub consume_message-Takes :
      (cfg : Config) (s : b.Store)
      → Takes cfg s (consume_message b cfg s).0 (consume_message b cfg s).1
  unfolding consume_message execute
  consume_message-Takes cfg s =
      let request = cfg.processing_request_queue in
      let working = processing_queue_name cfg in
      let r = b.refuses s in
      let c = b.brpoplpush request working r.1 in
      elim (Option-cases r.0) [
        | inr (x, e) ↦ rw e (record {
          taken = λ v h. ground arith;
          others = λ q n m. laws.list-refuses q s;
          values = λ k. laws.value-refuses k s;
        })
        | inl e ↦ rw e (record {
          taken = λ v h.
              let (rest, was, left, came) =
                laws.brpoplpush_reply request working v r.1 (request-ne-processing cfg) h in
              (
                rest,
                sym (laws.list-refuses request s) ∙ was,
                laws.list-settle (is_ok c.0) request c.1 ∙ left,
                laws.list-settle (is_ok c.0) working c.1
                    ∙ came
                    ∙ ap (λ l. v ∷ l) (laws.list-refuses working s),
              );
          others = λ q n m.
              laws.list-settle (is_ok c.0) q c.1
              ∙ laws.list-brpoplpush_ne request working q r.1 n m
              ∙ laws.list-refuses q s;
          values = λ k.
              laws.value-settle (is_ok c.0) k c.1
              ∙ laws.value-brpoplpush request working k r.1
              ∙ laws.value-refuses k s;
        })
      ]
