-- ===== src/Queue.antt =====
-- The workers of pkg/operator/queues.go: `processResource`, `runHandler`, `getKeyFromQueueObj`,
-- `handleErr`, and the filter by namespace. client-go's work queue is the parameter `WorkQueue`, over a
-- world that its calls and the handler change. Logging is left out.
pub mod Retries
pub mod Events
pub mod Kinds
use operator_metering.Prelude.{
  ℕ, suc, ◌<◌, String, ◌≡◌, ◌≢◌, Bool, true, false, ◌||◌, Option, none, some, List, [], ◌∷◌, ltb,
  str_eq, if◌then◌else◌,
}
use operator_metering.Prom.Chunks.{Int64, pos, neg}

-- An object in the queue: a key, or something that is not a string.
pub data QueueObj : Type 0 where
  key : String → QueueObj
  not_string : ℕ → QueueObj

-- workqueue.RateLimitingInterface. The laws are what its documentation says of NumRequeues: each
-- AddRateLimited counts one more, Forget starts again, and nothing else that is called here changes it.
pub record WorkQueue (W : Type 0) : Type 0 where
  pub get : W → Option QueueObj × W
  pub done : QueueObj → W → W
  pub forget : QueueObj → W → W
  pub add_rate_limited : QueueObj → W → W
  pub num_requeues : QueueObj → W → ℕ
  pub num_requeues-forget : (o : QueueObj) (w : W) → num_requeues o (forget o w) ≡ 0
  pub num_requeues-add :
      (o : QueueObj) (w : W) → num_requeues o (add_rate_limited o w) ≡ suc (num_requeues o w)
  pub num_requeues-done : (o p : QueueObj) (w : W) → num_requeues o (done p w) ≡ num_requeues o w

-- `maxRequeues == -1 || queue.NumRequeues(obj) < maxRequeues`
unfoldable pub may_requeue : Int64 → ℕ → Bool
may_requeue (pos m) n = ltb n m
may_requeue (neg n') n = elim n' [ ℕ.zero ↦ true | ℕ.suc _ ↦ false ]

module _ {W : Type 0} (q : WorkQueue W) where
  -- handleErr; the error is its message
  unfoldable pub handle_err : Option String → QueueObj → Int64 → W → W
  unfolding may_requeue
  handle_err none obj max w = q.forget obj w
  handle_err (some e) obj max w =
      if may_requeue max (q.num_requeues obj w) then q.add_rate_limited obj w else q.forget obj w

  -- getKeyFromQueueObj
  unfoldable pub get_key_from_queue_obj : QueueObj → W → Option String × W
  get_key_from_queue_obj (key k) w = (some k, w)
  get_key_from_queue_obj (not_string n) w = (none, q.forget (not_string n) w)

  -- runHandler
  unfoldable pub run_handler : (String → W → Option String × W) → QueueObj → Int64 → W → W
  unfolding handle_err get_key_from_queue_obj
  run_handler handler obj max w =
      let (found, w') = get_key_from_queue_obj obj w in
      elim found [
        | none ↦ w'
        | some k ↦ let (e, w'') = handler k w' in handle_err e (key k) max w''
      ]

  -- processResource: false if the queue is shutting down
  unfoldable pub process_resource : (String → W → Option String × W) → Int64 → W → Bool × W
  unfolding run_handler
  process_resource handler max w =
      let (obj, w') = q.get w in
      elim obj [ none ↦ (false, w') | some o ↦ (true, q.done o (run_handler handler o max w')) ]

-- inTargetNamespace
unfoldable pub in_target_namespace : List String → String → Bool
in_target_namespace [] ns = false
in_target_namespace (t ∷ ts) ns =
    let rest = in_target_namespace ts ns in if str_eq ns t then true else rest
