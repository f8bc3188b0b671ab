-- ===== src/MetricStore/Batches.antt =====
-- The statements that store metrics (pkg/operator/prestostore/prometheusmetric.go): they fit the
-- buffer, and together they hold every metric once, in order.
use operator_metering.Prelude.{
  ℕ, ◌+◌, ◌≤◌, ◌≡◌, sym, ap, ◌∙◌, Bool, true, false, List, [], ◌∷◌, ◌++◌, map, arith, length,
  length-append, All,
}
use mathlib.Core.Path.{subst}
use mathlib.Core.List.{append-nil, append_assoc, map-append}
use operator_metering.MetricStore.{Bytes, bytes, Db, Buffer, format_insert_query, exceeds, to_write}

module _ {ℓ} {A : Type ℓ} where
  abbrev pub flatten : List (List A) → List A
  flatten [] = []
  flatten (xs ∷ xss) = xs ++ flatten xss

  pub flatten-snoc :
      (xss : List (List A)) (xs : List A) → flatten (xss ++ xs ∷ []) ≡ flatten xss ++ xs
  flatten-snoc [] xs = append-nil xs
  flatten-snoc (ys ∷ xss) xs = rw (flatten-snoc xss xs) (sym (append_assoc ys (flatten xss) xs))

  abbrev pub has_any : List A → Bool
  has_any [] = false
  has_any (x ∷ xs) = true

module _ {M : Type 0} (sql : M → Bytes) (table_name : Bytes) where
  abbrev after_commas : List M → Bytes
  after_commas [] = []
  after_commas (m ∷ ms) = (bytes "," ++ sql m) ++ after_commas ms

  -- The rows of a batch: "VALUES " and the metrics' texts, separated by commas.
  abbrev pub rows : List M → Bytes
  rows [] = []
  rows (m ∷ ms) = (bytes "VALUES " ++ sql m) ++ after_commas ms

  -- The statement that inserts a batch.
  abbrev pub statement : List M → Bytes
  statement ms = format_insert_query table_name (rows ms)

  after_commas-snoc :
      (ms : List M) (m : M) → after_commas (ms ++ m ∷ []) ≡ after_commas ms ++ (bytes "," ++ sql m)
  after_commas-snoc [] m = append-nil (bytes "," ++ sql m)
  after_commas-snoc (n ∷ ms) m =
      rw (after_commas-snoc ms m)
        (sym (append_assoc (bytes "," ++ sql n) (after_commas ms) (bytes "," ++ sql m)))

module _ {W M : Type 0} (db : Db W) (sql : M → Bytes) (table_name : Bytes) (capacity : ℕ) where
  pub rows-snoc :
      (ms : List M) (m : M)
      → rows sql table_name (ms ++ m ∷ [])
        ≡ rows sql table_name ms ++ to_write db sql table_name capacity (has_any ms) (sql m)
  rows-snoc [] m = append-nil (bytes "VALUES " ++ sql m)
  rows-snoc (n ∷ ms) m = rw (after_commas-snoc sql table_name ms m) (
      sym (
        append_assoc (bytes "VALUES " ++ sql n) (after_commas sql table_name ms)
          (bytes "," ++ sql m)))

  length-format :
      (q : Bytes)
      → length (format_insert_query table_name q)
        ≡ length q + length (format_insert_query table_name [])
  unfolding format_insert_query
  length-format q =
      omega (
        arith,
        length-append table_name (bytes " " ++ q),
        length-append table_name (bytes " " ++ []),
      )

  abbrev pub Fits : Bytes → Type 0
  Fits q = length q ≤ capacity

  pub exceeds-Fits :
      (q : Bytes)
      → exceeds db sql table_name capacity (length q) ≡ false
      → Fits (format_insert_query table_name q)
  unfolding exceeds
  exceeds-Fits q h = let l = length-format q in ground arith

  -- `batches` were executed, and `pending` is in the buffer.
  pub record Live (batches : List (List M)) (pending : List M) (b : Buffer W) : Type 0 where
    pub executed_eq : b.executed ≡ map (statement sql table_name) batches
    pub text_eq : b.text ≡ rows sql table_name pending
    pub flag_eq : b.metrics_in_buffer ≡ has_any pending
    pub fits : All Fits b.executed
    pub pending_fits : has_any pending ≡ true → Fits (statement sql table_name pending)

  pub executed-snoc :
      (batches : List (List M)) (pending : List M) (b : Buffer W)
      → Live batches pending b
      → b.executed ++ format_insert_query table_name b.text ∷ []
        ≡ map (statement sql table_name) (batches ++ pending ∷ [])
  executed-snoc batches pending b h =
      ap (λ q. b.executed ++ format_insert_query table_name q ∷ []) h.text_eq
      ∙ ap (λ xs. xs ++ statement sql table_name pending ∷ []) h.executed_eq
      ∙ sym (map-append (statement sql table_name) batches (pending ∷ []))

  pub pending-Fits :
      (batches : List (List M)) (pending : List M) (b : Buffer W)
      → Live batches pending b
      → has_any pending ≡ true
      → Fits (format_insert_query table_name b.text)
  pending-Fits batches pending b h p =
      subst (λ q. Fits (format_insert_query table_name q)) (sym h.text_eq) (h.pending_fits p)

  pub Live-world :
      (batches : List (List M)) (pending : List M) (b : Buffer W) (w : W)
      → Live batches pending b
      → Live batches pending (record b { world = w })
  Live-world batches pending b w h = record {
    executed_eq = h.executed_eq;
    text_eq = h.text_eq;
    flag_eq = h.flag_eq;
    fits = h.fits;
    pending_fits = h.pending_fits;
  }
