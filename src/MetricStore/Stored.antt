-- ===== src/MetricStore/Stored.antt =====
-- `StorePrometheusMetricsWithBuffer` (pkg/operator/prestostore/prometheusmetric.go), step by step:
-- what each step of the loop leaves in the buffer and in the database.
use operator_metering.Prelude.{
  ℕ, ◌+◌, ◌≡◌, refl, sym, ap, ◌∙◌, Bool, true, false, ◌&&◌, Option, none, some, List, [], ◌∷◌, ◌++◌,
  map, arith, length, length-append, All, All-append, ◌⊎◌, inl, inr, if◌then◌else◌, String,
}
use mathlib.Core.Path.{subst}
use mathlib.Core.List.{append-nil, append_assoc}
use operator_metering.MetricStore.{
  Bytes, Db, Buffer, Step, StoreError, cancelled, insert_failed, exceeds_buffer,
  format_insert_query, exceeds, inserted, insert_into, or_next, flush_if_full, to_write,
  write_metric, store_metric, store_metrics, store_prometheus_metrics_with_buffer,
}
use operator_metering.MetricStore.Batches.{
  flatten, flatten-snoc, has_any, rows, statement, Fits, Live, rows-snoc, exceeds-Fits,
  executed-snoc, pending-Fits, Live-world,
}

module _ {W M : Type 0} (db : Db W) (sql : M → Bytes) (table_name : Bytes) (capacity : ℕ) where
  -- The buffer and the executed statements hold the metrics `seen`, split into batches and a rest.
  record Kept (seen : List M) (b : Buffer W) : Type 0 where
    batches : List (List M)
    pending : List M
    live : Live db sql table_name capacity batches pending b
    parts : flatten batches ++ pending ≡ seen

  -- A step either goes on, with the metrics `after` stored and `P` true of those in the buffer, or it
  -- stops with an error.
  abbrev Outcome : (List M → Type 0) → List M → List M → Step W → Type 0
  Outcome P seen after s =
      ((s.1 ≡ none) × ((k : Kept after s.0) × P k.pending))
      ⊎ ((e : StoreError) × ((s.1 ≡ some e) × Kept seen s.0))

  abbrev Any : List M → Type 0
  Any ms = Unit

  abbrev NonEmpty : List M → Type 0
  NonEmpty ms = has_any ms ≡ true

  abbrev Empty : List M → Type 0
  Empty ms = ms ≡ []

  inserted-Outcome :
      (seen : List M) (b : Buffer W) (reply : Option String × W)
      → (k : Kept seen b) → NonEmpty k.pending
      → Outcome Empty seen seen (inserted db sql table_name capacity b reply)
  inserted-Outcome seen b (some e, w) k p = inr (
    insert_failed e,
    (
      refl,
      record {
        batches = k.batches;
        pending = k.pending;
        live = Live-world db sql table_name capacity k.batches k.pending b w k.live;
        parts = k.parts;
      },
    ),
  )
  inserted-Outcome seen b (none, w) k p = inl (
    refl,
    (
      record {
        batches = k.batches ++ k.pending ∷ [];
        pending = [];
        live = record {
          executed_eq = executed-snoc db sql table_name capacity k.batches k.pending b k.live;
          text_eq = refl;
          flag_eq = refl;
          fits =
              All-append (Fits db sql table_name capacity) b.executed _ k.live.fits
                (pending-Fits db sql table_name capacity k.batches k.pending b k.live p, tt);
          pending_fits = λ x. cc;
        };
        parts = append-nil _ ∙ flatten-snoc k.batches k.pending ∙ k.parts;
      },
      refl,
    ),
  )

  insert_into-Outcome :
      (seen : List M) (b : Buffer W) (k : Kept seen b)
      → NonEmpty k.pending
      → Outcome Empty seen seen (insert_into db sql table_name capacity b)
  unfolding insert_into
  insert_into-Outcome seen b k p = inserted-Outcome seen b _ k p

  has_any-snoc : (ms : List M) (m : M) → has_any (ms ++ m ∷ []) ≡ true
  has_any-snoc [] m = refl
  has_any-snoc (n ∷ ms) m = refl

  length-written :
      (pending : List M) (text : Bytes) (new : Bytes)
      → text ≡ rows sql table_name pending
      → length new + length text ≡ length (rows sql table_name pending ++ new)
  length-written pending text new h = rw (sym h) (omega (arith, length-append text new))

  written-Live :
      (batches : List (List M)) (pending : List M) (b : Buffer W) (m : M)
      → Live db sql table_name capacity batches pending b
      → exceeds db sql table_name capacity
          (length (to_write db sql table_name capacity (has_any pending) (sql m)) + length b.text)
        ≡ false
      → Live db sql table_name capacity batches (pending ++ m ∷ []) (record b {
        text = b.text ++ to_write db sql table_name capacity b.metrics_in_buffer (sql m);
        metrics_in_buffer = true;
      })
  written-Live batches pending b m h x =
      let new = to_write db sql table_name capacity (has_any pending) (sql m) in
      record {
        executed_eq = h.executed_eq;
        text_eq =
            ap (λ t. t ++ to_write db sql table_name capacity b.metrics_in_buffer (sql m)) h.text_eq
            ∙ ap (λ f. rows sql table_name pending ++ to_write db sql table_name capacity f (sql m))
                h.flag_eq
            ∙ sym (rows-snoc db sql table_name capacity pending m);
        flag_eq = sym (has_any-snoc pending m);
        fits = h.fits;
        pending_fits = λ p.
            subst (λ q. Fits db sql table_name capacity (format_insert_query table_name q))
              (sym (rows-snoc db sql table_name capacity pending m))
              (exceeds-Fits db sql table_name capacity (rows sql table_name pending ++ new) (
                subst (λ n. exceeds db sql table_name capacity n ≡ false)
                  (length-written pending b.text new h.text_eq) x));
      }

  forget :
      (seen after : List M) (P : List M → Type 0) (s : Step W)
      → Outcome P seen after s
      → Outcome Any seen after s
  forget seen after P s (inl (h, (k, p))) = inl (h, (k, tt))
  forget seen after P s (inr h) = inr h

  if-Outcome :
      (P : List M → Type 0) (seen after : List M) (c : Bool) (s t : Step W)
      → (c ≡ true → Outcome P seen after s)
      → (c ≡ false → Outcome P seen after t)
      → Outcome P seen after (if c then s else t)
  if-Outcome P seen after true s t f g = f refl
  if-Outcome P seen after false s t f g = g refl

  both-fst : (c d : Bool) → c && d ≡ true → c ≡ true
  both-fst true d h = refl
  both-fst false d h = cc

  write_metric-Outcome :
      (seen : List M) (b : Buffer W) (m : M) (k : Kept seen b)
      → Outcome NonEmpty seen (seen ++ m ∷ []) (write_metric db sql table_name capacity (sql m) b)
  unfolding write_metric
  write_metric-Outcome seen b m k =
      if-Outcome NonEmpty seen (seen ++ m ∷ []) _ _ _
        (λ _. inr (
          exceeds_buffer (to_write db sql table_name capacity b.metrics_in_buffer (sql m)),
          (refl, k),
        ))
        (λ x. inl (
          refl,
          (
            record {
              batches = k.batches;
              pending = k.pending ++ m ∷ [];
              live = written-Live k.batches k.pending b m k.live (
                  subst
                    (λ f.
                      exceeds db sql table_name capacity
                        (length (to_write db sql table_name capacity f (sql m)) + length b.text)
                      ≡ false)
                    k.live.flag_eq x);
              parts =
                  sym (append_assoc (flatten k.batches) k.pending (m ∷ []))
                  ∙ ap (λ xs. xs ++ m ∷ []) k.parts;
            },
            has_any-snoc k.pending m,
          ),
        ))

  flush_if_full-Outcome :
      (seen : List M) (b : Buffer W) (text : Bytes) (k : Kept seen b)
      → Outcome Any seen seen (flush_if_full db sql table_name capacity text b)
  unfolding flush_if_full
  flush_if_full-Outcome seen b text k =
      if-Outcome Any seen seen _ _ _
        (λ x.
          forget seen seen Empty _
            (insert_into-Outcome seen b k (sym k.live.flag_eq ∙ both-fst _ _ x)))
        (λ _. inl (refl, (k, tt)))

  or_next-Outcome :
      (P Q : List M → Type 0) (seen after : List M) (s : Step W) (next : Buffer W → Step W)
      → Outcome P seen seen s
      → ((b : Buffer W) (k : Kept seen b) → P k.pending → Outcome Q seen after (next b))
      → Outcome Q seen after (or_next db sql table_name capacity s next)
  or_next-Outcome P Q seen after (b, none) next (inl (h, (k, p))) f = f b k p
  or_next-Outcome P Q seen after (b, some e) next (inl (h, (k, p))) f = cc
  or_next-Outcome P Q seen after (b, some e) next (inr h) f = inr h
  or_next-Outcome P Q seen after (b, none) next (inr (e, (h, k))) f = cc

  store_metric-Outcome :
      (seen : List M) (m : M) (b : Buffer W) (k : Kept seen b)
      → Outcome NonEmpty seen (seen ++ m ∷ []) (store_metric db sql table_name capacity m b)
  unfolding store_metric
  store_metric-Outcome seen m b k =
      let k' : Kept seen (record b { world = (db.done b.world).1 }) = record {
        batches = k.batches;
        pending = k.pending;
        live =
            Live-world db sql table_name capacity k.batches k.pending b (db.done b.world).1 k.live;
        parts = k.parts;
      } in
      if-Outcome NonEmpty seen (seen ++ m ∷ []) _ _ _ (λ _. inr (cancelled, (refl, k')))
        (λ _.
          or_next-Outcome Any NonEmpty seen (seen ++ m ∷ []) _ _
            (flush_if_full-Outcome seen _ (sql m) k')
            (λ b' k'' _. write_metric-Outcome seen b' m k''))

  -- Nothing is left out if there is no error.
  abbrev pub IsComplete : Option StoreError → List M → Type 0
  IsComplete none rest = rest ≡ []
  IsComplete (some e) rest = Unit

  -- What a run leaves: the statements hold a beginning of the metrics, and all if it had no error.
  pub record Stored (ms : List M) (s : Step W) : Type 0 where
    pub batches : List (List M)
    pub rest : List M
    pub executed_eq : s.0.executed ≡ map (statement sql table_name) batches
    pub in_order : flatten batches ++ rest ≡ ms
    pub fits : All (Fits db sql table_name capacity) s.0.executed
    pub complete : IsComplete s.1 rest

  stopped :
      (seen more all : List M) (s : Step W) (e : StoreError)
      → s.1 ≡ some e
      → seen ++ more ≡ all
      → Kept seen s.0
      → Stored all s
  stopped seen more all s e h x k = record {
    batches = k.batches;
    rest = k.pending ++ more;
    executed_eq = k.live.executed_eq;
    in_order =
        sym (append_assoc (flatten k.batches) k.pending more) ∙ ap (λ xs. xs ++ more) k.parts ∙ x;
    fits = k.live.fits;
    complete = subst (λ o. IsComplete o (k.pending ++ more)) (sym h) tt;
  }

  ended : (all : List M) (s : Step W) → Outcome Empty all all s → Stored all s
  ended all s (inl (h, (k, p))) = record {
    batches = k.batches;
    rest = [];
    executed_eq = k.live.executed_eq;
    in_order = ap (λ xs. flatten k.batches ++ xs) (sym p) ∙ k.parts;
    fits = k.live.fits;
    complete = subst (λ o. IsComplete o []) (sym h) refl;
  }
  ended all s (inr (e, (h, k))) = stopped all [] all s e h (append-nil all) k

  or_next-Stored :
      (P : List M → Type 0) (seen after more all : List M) (s : Step W) (next : Buffer W → Step W)
      → Outcome P seen after s
      → seen ++ more ≡ all
      → ((b : Buffer W) (k : Kept after b) → P k.pending → Stored all (next b))
      → Stored all (or_next db sql table_name capacity s next)
  or_next-Stored P seen after more all (b, none) next (inl (h, (k, p))) x f = f b k p
  or_next-Stored P seen after more all (b, some e) next (inl (h, (k, p))) x f = cc
  or_next-Stored P seen after more all (b, some e) next (inr (e', (h, k))) x f =
      stopped seen more all (b, some e) e' h x k
  or_next-Stored P seen after more all (b, none) next (inr (e, (h, k))) x f = cc

  store_metrics-Stored :
      (seen more all : List M) (b : Buffer W)
      → Kept seen b
      → seen ++ more ≡ all
      → has_any more ≡ true
      → Stored all (store_metrics db sql table_name capacity more b)
  unfolding store_metrics
  store_metrics-Stored seen [] all b k x h = cc
  store_metrics-Stored seen (m ∷ []) all b k x h =
      or_next-Stored NonEmpty seen (seen ++ m ∷ []) (m ∷ []) all _ _
        (store_metric-Outcome seen m b k) x
        (λ b' k' p.
          subst (λ ms. Stored ms (insert_into db sql table_name capacity b')) x
            (ended (seen ++ m ∷ []) _ (insert_into-Outcome (seen ++ m ∷ []) b' k' p)))
  store_metrics-Stored seen (m ∷ (n ∷ ms)) all b k x h =
      or_next-Stored NonEmpty seen (seen ++ m ∷ []) (m ∷ (n ∷ ms)) all _ _
        (store_metric-Outcome seen m b k) x
        (λ b' k' p.
          store_metrics-Stored (seen ++ m ∷ []) (n ∷ ms) all b' k'
            (append_assoc seen (m ∷ []) (n ∷ ms) ∙ x) refl)

  started :
      {w : W} → Kept [] (record { text = []; metrics_in_buffer = false; executed = []; world = w })
  started = record {
    batches = [];
    pending = [];
    live = record {
      executed_eq = refl;
      text_eq = refl;
      flag_eq = refl;
      fits = tt;
      pending_fits = λ x. cc;
    };
    parts = refl;
  }

  -- Whatever the metrics, their texts, the database and the context: the executed statements hold a
  -- beginning of the metrics, each metric once and in order, split into batches, each batch one
  -- `INSERT INTO` with its rows separated by commas; no statement is longer than the buffer's capacity;
  -- and if the run returns no error, no metric is left out.
  pub store-Stored :
      (ms : List M) (w : W)
      → Stored ms (store_prometheus_metrics_with_buffer db sql table_name capacity ms w)
  unfolding store_prometheus_metrics_with_buffer store_metrics
  store-Stored [] w = record {
    batches = [];
    rest = [];
    executed_eq = refl;
    in_order = refl;
    fits = tt;
    complete = refl;
  }
  store-Stored (m ∷ ms) w = store_metrics-Stored [] (m ∷ ms) (m ∷ ms) _ started refl refl
