-- ===== src/Prom/Import/Accounting.antt =====
-- What `ImportFromTimeRange` (pkg/operator/prestostore/query.go) leaves in its results and counters.
use operator_metering.Prelude.{
  ◌+◌, ◌≤◌, ◌≡◌, ◌≢◌, refl, ◌∙◌, ap, sym, String, Bool, Option, none, some, List, [], ◌∷◌, ◌++◌,
  arith, length, length-append, Bool-cases, inl, inr,
}
use mathlib.Core.List.{append-nil, append_assoc}
use mathlib.Core.Path.{subst}
use mathlib.Core.Option.{some-injective}
use operator_metering.Prom.Chunks.{Time, Range, get_time_ranges_chunked}
use operator_metering.Prom.Import.{
  Metric, Reply, failed, matrix, not_matrix, Config, Collectors, ImportError, Env, Progress, Step,
  matrix_metrics, by_time, store_reply, store_chunk, handle_reply, import_chunk, import_chunks,
  or_next, chunking, limit_end, import_ranges, import_from_time_range, started, finish, no_results,
}

-- What no step of the loop changes: the gauge, the count of imports and that of the stores; and the
-- metrics counted as imported are those that were added to the results.
pub record Kept {W : Type 0} (p q : Progress W) : Type 0 where
  pub running : q.counters.imports_running ≡ p.counters.imports_running
  pub imports : q.counters.total_imports ≡ p.counters.total_imports
  pub stores : q.counters.total_presto_stores ≡ p.counters.total_presto_stores
  pub imported :
      q.counters.metrics_imported + length p.results.metrics
      ≡ p.counters.metrics_imported + length q.results.metrics
  pub imported_le : p.counters.metrics_imported ≤ q.counters.metrics_imported

-- The range of a step is appended to the processed ones exactly if the step has no error.
abbrev pub Appended : {W : Type 0} → Range → List Range → Step W → Type 0
Appended r before (q, none) = q.results.processed_time_ranges ≡ before ++ r ∷ []
Appended r before (q, some e) = q.results.processed_time_ranges ≡ before

module _ {W : Type 0} (env : Env W) (cfg : Config) (r : Range) where
  store_reply-Kept :
      (ms : List Metric) (p : Progress W) (e : Option String)
      → Kept p (store_reply env cfg r ms p e).0
  unfolding store_reply
  store_reply-Kept ms p (some e) = ground arith
  store_reply-Kept ms p none = ground (arith, length-append p.results.metrics ms)

  store_chunk-Kept : (ms : List Metric) (p : Progress W) → Kept p (store_chunk env cfg r ms p).0
  unfolding store_chunk
  store_chunk-Kept [] p = ground arith
  store_chunk-Kept (m ∷ ms) p =
      let k =
        store_reply-Kept (by_time (m ∷ ms)) _
          (env.store_metrics cfg.presto_table_name (by_time (m ∷ ms)) p.world).0 in
      record {
        running = k.running;
        imports = k.imports;
        stores = k.stores;
        imported = k.imported;
        imported_le = k.imported_le;
      }

  handle_reply-Kept : (p : Progress W) (y : Reply) → Kept p (handle_reply env cfg r p y).0
  unfolding handle_reply
  handle_reply-Kept p (failed e) = ground arith
  handle_reply-Kept p (not_matrix t) = ground arith
  handle_reply-Kept p (matrix ss) = elim (Bool-cases (env.done p.world).0) [
    | inl c ↦ rw c (ground arith)
    | inr c ↦ rw c (
        let k = store_chunk-Kept (matrix_metrics r ss) _ in
        record {
          running = k.running;
          imports = k.imports;
          stores = k.stores;
          imported = k.imported;
          imported_le = k.imported_le;
        })
  ]

  import_chunk-Kept : (p : Progress W) → Kept p (import_chunk env cfg r p).0
  unfolding import_chunk
  import_chunk-Kept p = elim (Bool-cases (env.done p.world).0) [
    | inl c ↦ rw c (ground arith)
    | inr c ↦ rw c (
        let k =
          handle_reply-Kept _ (env.query_range cfg.prometheus_query r (env.done p.world).1).0 in
        record {
          running = k.running;
          imports = k.imports;
          stores = k.stores;
          imported = k.imported;
          imported_le = k.imported_le;
        })
  ]

  store_reply-Appended :
      (ms : List Metric) (p : Progress W) (e : Option String)
      → Appended r p.results.processed_time_ranges (store_reply env cfg r ms p e)
  unfolding store_reply
  store_reply-Appended ms p none = refl
  store_reply-Appended ms p (some e) = refl

  store_chunk-Appended :
      (ms : List Metric) (p : Progress W)
      → Appended r p.results.processed_time_ranges (store_chunk env cfg r ms p)
  unfolding store_chunk
  store_chunk-Appended [] p = refl
  store_chunk-Appended (m ∷ ms) p =
      store_reply-Appended (by_time (m ∷ ms)) _
        (env.store_metrics cfg.presto_table_name (by_time (m ∷ ms)) p.world).0

  handle_reply-Appended :
      (p : Progress W) (y : Reply)
      → Appended r p.results.processed_time_ranges (handle_reply env cfg r p y)
  unfolding handle_reply
  handle_reply-Appended p (failed e) = refl
  handle_reply-Appended p (not_matrix t) = refl
  handle_reply-Appended p (matrix ss) = elim (Bool-cases (env.done p.world).0) [
    | inl c ↦ rw c refl
    | inr c ↦ rw c (store_chunk-Appended (matrix_metrics r ss) _)
  ]

  import_chunk-Appended :
      (p : Progress W) → Appended r p.results.processed_time_ranges (import_chunk env cfg r p)
  unfolding import_chunk
  import_chunk-Appended p = elim (Bool-cases (env.done p.world).0) [
    | inl c ↦ rw c refl
    | inr c ↦
        rw c
          (handle_reply-Appended _ (env.query_range cfg.prometheus_query r (env.done p.world).1).0)
  ]

Kept-refl : {W : Type 0} (p : Progress W) → Kept p p
Kept-refl p = ground arith

Kept-trans : {W : Type 0} {p q s : Progress W} → Kept p q → Kept q s → Kept p s
Kept-trans h k = record {
  running = omega (arith, h.running, k.running);
  imports = omega (arith, h.imports, k.imports);
  stores = omega (arith, h.stores, k.stores);
  imported = omega (arith, h.imported, k.imported);
  imported_le = omega (arith, h.imported_le, k.imported_le);
}

-- The time ranges fall into those that were processed and the rest, which is empty exactly if there
-- was no error.
abbrev pub IsSplit : List Range → Option ImportError → List Range → List Range → Type 0
IsSplit rs none done rest = (rs ≡ done) × (rest ≡ [])
IsSplit rs (some e) done rest = (rs ≡ done ++ rest) × (rest ≢ [])

record Loop {W : Type 0} (rs : List Range) (p : Progress W) (s : Step W) : Type 0 where
  kept : Kept p s.0
  done : List Range
  rest : List Range
  appended : s.0.results.processed_time_ranges ≡ p.results.processed_time_ranges ++ done
  split : IsSplit rs s.1 done rest

module _ {W : Type 0} (env : Env W) (cfg : Config) where
  first_fails :
      (r : Range) (rs : List Range) (p q : Progress W) (e : ImportError)
      → Kept p q
      → Appended r p.results.processed_time_ranges (q, some e)
      → Loop (r ∷ rs) p (q, some e)
  first_fails r rs p q e k a = record {
    kept = k;
    done = [];
    rest = r ∷ rs;
    appended = rw append-nil a;
    split = (refl, λ x. cc);
  }

  IsSplit-cons :
      (r : Range) (rs : List Range) (e : Option ImportError) (done rest : List Range)
      → IsSplit rs e done rest
      → IsSplit (r ∷ rs) e (r ∷ done) rest
  IsSplit-cons r rs none done rest h = (ap (λ l. r ∷ l) h.0, h.1)
  IsSplit-cons r rs (some e) done rest h = (ap (λ l. r ∷ l) h.0, h.1)

  first_goes_on :
      (r : Range) (rs : List Range) (p q : Progress W) (s : Step W)
      → Kept p q
      → Appended r p.results.processed_time_ranges (q, none)
      → Loop rs q s
      → Loop (r ∷ rs) p s
  first_goes_on r rs p q s k a l = record {
    kept = Kept-trans k l.kept;
    done = r ∷ l.done;
    rest = l.rest;
    appended =
        l.appended
        ∙ ap (λ x. x ++ l.done) a
        ∙ append_assoc p.results.processed_time_ranges (r ∷ []) l.done;
    split = IsSplit-cons r rs s.1 l.done l.rest l.split;
  }

  import_chunks-Loop : (rs : List Range) (p : Progress W) → Loop rs p (import_chunks env cfg rs p)
  unfolding import_chunks
  import_chunks-Loop [] p = record {
    kept = Kept-refl p;
    done = [];
    rest = [];
    appended = sym (append-nil _);
    split = (refl, refl);
  }
  import_chunks-Loop (r ∷ rs) p =
      go (import_chunk env cfg r p) (import_chunk-Kept env cfg r p)
        (import_chunk-Appended env cfg r p) (import_chunks-Loop rs)
    where
      go :
          (s : Step W)
          → Kept p s.0
          → Appended r p.results.processed_time_ranges s
          → ((q : Progress W) → Loop rs q (import_chunks env cfg rs q))
          → Loop (r ∷ rs) p (or_next env cfg s (import_chunks env cfg rs))
      go (q, some e) k a l = first_fails r rs p q e k a
      go (q, none) k a l = first_goes_on r rs p q _ k a (l q)

  abbrev pub Accounts : Collectors → Option (List Range) → Step W → Type 0
  Accounts c chunks s =
      (s.0.counters.imports_running ≡ c.imports_running)
      × (s.0.counters.total_imports ≡ c.total_imports + 1)
      × (s.0.counters.metrics_imported ≡ c.metrics_imported + length s.0.results.metrics)
      × (s.0.counters.total_presto_stores ≡ c.total_presto_stores)
      × ((rs : List Range) × (rest : List Range) × (chunks ≡ some rs)
          × IsSplit rs s.1 s.0.results.processed_time_ranges rest)

  finish-Accounts :
      (c : Collectors) (w : W) (rs : List Range) (s : Step W)
      → Loop rs (record { results = no_results env cfg; counters = started env cfg c; world = w }) s
      → Accounts c (some rs) (finish env cfg s)
  finish-Accounts c w rs s l =
      let k = l.kept in
      (
        omega (arith, k.running),
        k.imports,
        omega (arith, k.imported),
        k.stores,
        (rs, l.rest, refl, rw l.appended l.split),
      )

  import_ranges-Accounts :
      (c : Collectors) (w : W) (o : Option (List Range)) (s : Step W)
      → import_ranges env cfg c w o ≡ some s
      → Accounts c o s
  import_ranges-Accounts c w none s h = absurd (cc)
  import_ranges-Accounts c w (some rs) s h =
      subst (Accounts c (some rs)) (some-injective _ _ h)
        (finish-Accounts c w rs _ (import_chunks-Loop rs _))

  -- What an import leaves, whatever Prometheus, the store and the context do: the gauge is back, one
  -- more import is counted and as many more imported metrics as the results hold, the count of the
  -- stores is as before, and the processed ranges are the chunks up to the one that failed, all of
  -- them exactly if there is no error.
  pub import-Accounts :
      (start_time end_time : Time) (allow : Bool) (c : Collectors) (w : W) (s : Step W)
      → import_from_time_range env cfg start_time end_time allow c w ≡ some s
      → Accounts c
          (get_time_ranges_chunked start_time
            (chunking cfg (limit_end cfg start_time end_time) allow)
            cfg.max_time_ranges)
          s
  unfolding import_from_time_range
  import-Accounts start_time end_time allow c w s h = import_ranges-Accounts c w _ s h
