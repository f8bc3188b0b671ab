-- ===== src/Prom/Importer/Keeps.antt =====
-- An observation of the world that the calls of an import (pkg/operator/prestostore) keep is kept by the import.
use operator_metering.Prelude.{
  String, ◌≡◌, refl, ap, ◌∙◌, Bool, true, false, Option, none, some, List, [], ◌∷◌, ltb,
  if◌then◌else◌, Bool-cases, inl, inr,
}
use mathlib.Core.Path.{subst}
use mathlib.Core.Option.{some-injective}
use operator_metering.Prom.Chunks.{Time, Range}
use operator_metering.Prom.Import.{
  Metric, Reply, failed, matrix, not_matrix, Config, Collectors, Env, Progress, Step, store_reply,
  store_chunk, handle_reply, import_chunk, import_chunks, or_next, matrix_metrics, by_time,
  import_ranges, import_from_time_range,
}
use operator_metering.Prom.Importer.{
  Importer, Outcome, LastTimestamp, found, lookup_failed, start_time_of, remember, remember?,
  import_from, looked_up, from_timestamp, import_from_last_timestamp,
}

-- The calls of an import keep the observation.
pub record EnvKeeps {W X : Type 0} (f : W → X) (env : Env W) : Type 0 where
  pub query_range : (q : String) (r : Range) (w : W) → f (env.query_range q r w).1 ≡ f w
  pub store_metrics : (t : String) (ms : List Metric) (w : W) → f (env.store_metrics t ms w).1 ≡ f w
  pub done : (w : W) → f (env.done w).1 ≡ f w

module _ {W X : Type 0} (f : W → X) (env : Env W) (keeps : EnvKeeps f env) (cfg : Config) where
  if-world :
      (b : Bool) (x y : Step W) (v : X)
      → f x.0.world ≡ v
      → f y.0.world ≡ v
      → f (if b then x else y).0.world ≡ v
  if-world true x y v h k = h
  if-world false x y v h k = k

  reply-keeps :
      (r : Range) (ms : List Metric) (p : Progress W) (e : Option String)
      → f (store_reply env cfg r ms p e).0.world ≡ f p.world
  unfolding store_reply
  reply-keeps r ms p none = refl
  reply-keeps r ms p (some e) = refl

  store-keeps :
      (r : Range) (ms : List Metric) (p : Progress W)
      → f (store_chunk env cfg r ms p).0.world ≡ f p.world
  unfolding store_chunk
  store-keeps r [] p = refl
  store-keeps r (m ∷ ms) p =
      let (reply, w) = env.store_metrics cfg.presto_table_name (by_time (m ∷ ms)) p.world in
      reply-keeps r (by_time (m ∷ ms)) _ reply
      ∙ keeps.store_metrics cfg.presto_table_name (by_time (m ∷ ms)) p.world

  handle-keeps :
      (r : Range) (p : Progress W) (reply : Reply)
      → f (handle_reply env cfg r p reply).0.world ≡ f p.world
  unfolding handle_reply
  handle-keeps r p (failed e) = refl
  handle-keeps r p (not_matrix t) = refl
  handle-keeps r p (matrix ss) =
      let (cancel, w) = env.done p.world in
      if-world cancel _ _ (f p.world) (keeps.done p.world)
        (store-keeps r (matrix_metrics r ss) _ ∙ keeps.done p.world)

  chunk-keeps : (r : Range) (p : Progress W) → f (import_chunk env cfg r p).0.world ≡ f p.world
  unfolding import_chunk
  chunk-keeps r p =
      let (cancel, w) = env.done p.world in
      let (reply, w') = env.query_range cfg.prometheus_query r w in
      if-world cancel _ _ (f p.world) (keeps.done p.world)
        (handle-keeps r _ reply ∙ keeps.query_range cfg.prometheus_query r w ∙ keeps.done p.world)

  next-keeps :
      (s : Step W) (next : Progress W → Step W) (v : X)
      → f s.0.world ≡ v
      → ((p : Progress W) → f (next p).0.world ≡ f p.world)
      → f (or_next env cfg s next).0.world ≡ v
  next-keeps (p, some e) next v h k = h
  next-keeps (p, none) next v h k = k p ∙ h

  chunks-keep :
      (rs : List Range) (p : Progress W) → f (import_chunks env cfg rs p).0.world ≡ f p.world
  unfolding import_chunks
  chunks-keep [] p = refl
  chunks-keep (r ∷ rs) p =
      next-keeps (import_chunk env cfg r p) (import_chunks env cfg rs) (f p.world) (chunk-keeps r p)
        (chunks-keep rs)

  ranges-keep :
      (c : Collectors) (w : W) (rs : Option (List Range)) (s : Step W)
      → import_ranges env cfg c w rs ≡ some s
      → f s.0.world ≡ f w
  ranges-keep c w none s h = absurd (cc)
  ranges-keep c w (some rs) s h =
      subst (λ (x : Step W). f x.0.world ≡ f w) (some-injective _ _ h) (chunks-keep rs _)

module _ {W X : Type 0} (f : W → X) (env : Env W) (keeps : EnvKeeps f env) where
  remember-keeps : (i : Importer) (s : Step W) → (remember i s).world ≡ s.0.world
  unfolding remember
  remember-keeps i (p, none) = refl
  remember-keeps i (p, some e) = refl

  remember?-keeps :
      (i : Importer) (w : W) (x : Option (Step W)) (o : Outcome W)
      → ((s : Step W) → x ≡ some s → f s.0.world ≡ f w)
      → remember? i x ≡ some o
      → f o.world ≡ f w
  remember?-keeps i w none o h e = absurd (cc)
  remember?-keeps i w (some s) o h e =
      subst (λ (x : Outcome W). f x.world ≡ f w) (some-injective _ _ e)
        (ap f (remember-keeps i s) ∙ h s refl)

  import_from-keeps :
      (i : Importer) (now : Time) (allow : Bool) (c : Collectors) (w : W) (o : Outcome W)
      → import_from env i now allow c w ≡ some o
      → f o.world ≡ f w
  unfolding import_from import_from_time_range
  import_from-keeps i now allow c w o h =
      elim (Bool-cases (ltb now (start_time_of i.cfg i.last_timestamp now))) [
        | inl early ↦
            subst (λ (x : Outcome W). f x.world ≡ f w) (some-injective _ _ (rw early at h)) refl
        | inr late ↦ remember?-keeps i w _ o (ranges-keep f env keeps i.cfg c w _) (rw late at h)
      ]

  module _ (get_last : String → W → LastTimestamp × W)
      (looks : (t : String) (w : W) → f (get_last t w).1 ≡ f w) where
    looked_up-keeps :
        (i : Importer) (now : Time) (allow : Bool) (c : Collectors) (reply : LastTimestamp × W)
        (o : Outcome W)
        → looked_up env get_last i now allow c reply ≡ some o
        → f o.world ≡ f reply.1
    looked_up-keeps i now allow c (lookup_failed e, w) o h =
        subst (λ (x : Outcome W). f x.world ≡ f w) (some-injective _ _ h) refl
    looked_up-keeps i now allow c (found t, w) o h =
        import_from-keeps (record i { last_timestamp = t }) now allow c w o h

    from-keeps :
        (i : Importer) (now : Time) (allow : Bool) (c : Collectors) (w : W) (t : Option Time)
        (o : Outcome W)
        → from_timestamp env get_last i now allow c w t ≡ some o
        → f o.world ≡ f w
    from-keeps i now allow c w (some t) o h = import_from-keeps i now allow c w o h
    from-keeps i now allow c w none o h =
        looked_up-keeps i now allow c (get_last i.cfg.presto_table_name w) o h
        ∙ looks i.cfg.presto_table_name w

    -- What the calls to Prometheus, the store and the table keep, an import keeps.
    pub import-keeps :
        (i : Importer) (now : Time) (allow : Bool) (c : Collectors) (w : W) (o : Outcome W)
        → import_from_last_timestamp env get_last i now allow c w ≡ some o
        → f o.world ≡ f w
    unfolding import_from_last_timestamp
    import-keeps i now allow c w o h = from-keeps i now allow c w i.last_timestamp o h
