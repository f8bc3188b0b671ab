-- ===== src/Queue/Retries.antt =====
-- A failing key is retried as often as allowed, and then dropped (`handleErr` of
-- pkg/operator/queues.go).
use operator_metering.Prelude.{
  ℕ, zero, suc, ◌≤◌, ◌<◌, String, ◌≡◌, ◌∙◌, ap, Option, none, some, arith,
}
use operator_metering.Prom.Chunks.{Int64, pos}
use operator_metering.Queue.{QueueObj, key, WorkQueue, may_requeue, handle_err, run_handler}

module _ {W : Type 0} (q : WorkQueue W) where
  -- With a limit `m`, one more failure is counted below it, and the count starts again at it.
  num_requeues-handle_err :
      (e : String) (obj : QueueObj) (m : ℕ) (w : W)
      → (q.num_requeues obj w < m
          → q.num_requeues obj (handle_err q (some e) obj (pos m) w) ≡ suc (q.num_requeues obj w))
        × (m ≤ q.num_requeues obj w → handle_err q (some e) obj (pos m) w ≡ q.forget obj w)
  unfolding handle_err may_requeue
  num_requeues-handle_err e obj m w =
      (λ lt. ground (arith, lt, q.num_requeues-add obj w), λ ge. ground arith)

  -- The handler does not touch the queue's counts of its own key.
  abbrev pub LeavesCounts : (String → W → Option String × W) → Type 0
  LeavesCounts handler =
      (k : String) (w : W) → q.num_requeues (key k) (handler k w).1 ≡ q.num_requeues (key k) w

  abbrev pub Fails : (String → W → Option String × W) → String → Type 0
  Fails handler k = (w : W) → (e : String) × ((handler k w).0 ≡ some e)

  -- The key is taken from the queue and handled `n` times.
  unfoldable pub rounds_of : (String → W → Option String × W) → QueueObj → Int64 → ℕ → W → W
  rounds_of handler obj max zero w = w
  rounds_of handler obj max (suc n) w =
      run_handler q handler obj max (rounds_of handler obj max n w)

  handled-le :
      (k : String) (m : ℕ) (e : Option String) (w : W)
      → q.num_requeues (key k) w ≤ m
      → q.num_requeues (key k) (handle_err q e (key k) (pos m) w) ≤ m
  unfolding handle_err may_requeue
  handled-le k m none w h = omega (arith, q.num_requeues-forget (key k) w)
  handled-le k m (some e) w h =
      ground (arith, q.num_requeues-forget (key k) w, q.num_requeues-add (key k) w)

  module _ (handler : String → W → Option String × W) (k : String) (m : ℕ)
      (leaves : LeavesCounts handler) where
    -- Whatever the handler returns, a key's count of retries stays within the limit.
    pub run_handler-le :
        (w : W)
        → q.num_requeues (key k) w ≤ m
        → q.num_requeues (key k) (run_handler q handler (key k) (pos m) w) ≤ m
    unfolding run_handler
    run_handler-le w h = handled-le k m (handler k w).0 (handler k w).1 (omega (arith, leaves k w))

    failed_round :
        (w : W)
        → Fails handler k
        → (e : String) × (run_handler q handler (key k) (pos m) w
            ≡ handle_err q (some e) (key k) (pos m) (handler k w).1)
    unfolding run_handler
    failed_round w f =
        let (e, h) = f w in (e, ap (λ x. handle_err q x (key k) (pos m) (handler k w).1) h)

    counted :
        (w : W) (n : ℕ)
        → Fails handler k
        → q.num_requeues (key k) w ≡ n
        → n < m
        → q.num_requeues (key k) (run_handler q handler (key k) (pos m) w) ≡ suc n
    counted w n f h lt =
        let (e, eq) = failed_round w f in
        rw eq (
          (num_requeues-handle_err e (key k) m (handler k w).1).0 (omega (arith, leaves k w))
          ∙ ap suc (leaves k w ∙ h))

    retried :
        (w : W) (n : ℕ)
        → Fails handler k
        → q.num_requeues (key k) w ≡ 0
        → n ≤ m
        → q.num_requeues (key k) (rounds_of handler (key k) (pos m) n w) ≡ n
    unfolding rounds_of
    retried w zero f h le = h
    retried w (suc n) f h le = counted _ n f (retried w n f h (omega arith)) (omega arith)

    -- A key whose handler always fails, and that was not retried before, is put back exactly `m`
    -- times, counted one by one; after the next failure it is dropped from the queue.
    pub retries_exact :
        (w : W) (n : ℕ)
        → Fails handler k
        → q.num_requeues (key k) w ≡ 0
        → n ≤ m
        → (q.num_requeues (key k) (rounds_of handler (key k) (pos m) n w) ≡ n)
          × ((w' : W) × (rounds_of handler (key k) (pos m) (suc m) w ≡ q.forget (key k) w'))
    unfolding rounds_of
    retries_exact w n f h le = (
      retried w n f h le,
      (let v = rounds_of handler (key k) (pos m) m w in
          let (e, eq) = failed_round v f in
          (
            (handler k v).1,
            eq
                ∙ (num_requeues-handle_err e (key k) m (handler k v).1).1
                    (omega (arith, leaves k v, retried w m f h (omega arith))),
          )),
    )
