-- ===== src/Report/Generator.antt =====
-- The generation of a report: `GenerateReport` of pkg/operator/reporting/report_generator.go with the repository of
-- pkg/operator/prestostore/reports.go, and `DeleteFrom` and `InsertInto` of pkg/presto/util.go. Presto is a call that a
-- statement is sent with.
use operator_metering.Prelude.{
  String, ◌<>◌, ◌≡◌, ◌≢◌, refl, sym, ap, ◌∙◌, Bool, true, false, Option, none, some, List, ◌∷◌,
  str_eq, eq_iff, if◌then◌else◌, arith, Bool-cases, inl, inr,
}
use mathlib.Core.Path.{subst}
use operator_metering.Kube.{
  Failure, invalid, Result, ok, err, Act, continue, ◌>>◌, fail, when, called,
}

abbrev pub delete_statement : String → String
delete_statement table_name = "DELETE FROM " <> table_name

abbrev pub insert_statement : String → String → String
insert_statement table_name query = "INSERT INTO " <> (table_name <> (" " <> query))

module _ {W : Type 0} (send : String → W → Option String × W) where
  -- DeleteReportResults
  unfoldable pub delete_report_results : String → Act W (Unit {0})
  delete_report_results table_name =
      λ w. called "couldn't empty table" (send (delete_statement table_name) w)

  -- StoreReportResults
  unfoldable pub store_report_results : String → String → Act W (Unit {0})
  store_report_results table_name query =
      λ w. called "Failed to execute query" (send (insert_statement table_name query) w)

  -- GenerateReport
  unfoldable pub generate_report : String → String → Bool → Act W (Unit {0})
  generate_report table_name query delete_existing_data =
      if str_eq table_name ""
      then fail (invalid "tableName cannot be empty")
      else (when delete_existing_data (delete_report_results table_name)
          >> store_report_results table_name query)

  -- The statements that were sent, the last one first, are read from the world.
  module _ (log : W → List String)
      (sent : (s : String) (w : W) → log (send s w).1 ≡ s ∷ log w) where
    -- What a call's result says of Presto's answer to the statement.
    abbrev pub Answered : Option String → Result (Unit {0}) → Type 0
    Answered none r = r ≡ ok tt
    Answered (some e) r = (f : Failure) × (r ≡ err f)

    -- What a generation that begins at `w` sends and returns: nothing and an error without a table; else the deletion if it
    -- is asked for, and the insertion only if the deletion succeeded. The result is that of the last statement.
    pub data Sends (table_name query : String) (w : W)
        : Bool → Result (Unit {0}) → List String → Type 0 where
      no_table :
          {b : Bool} {e : Failure} → table_name ≡ "" → Sends table_name query w b (err e) (log w)
      not_deleted :
          {e : Failure} {answer : String}
          → table_name ≢ ""
          → (send (delete_statement table_name) w).0 ≡ some answer
          → Sends table_name query w true (err e) (delete_statement table_name ∷ log w)
      replaced :
          {r : Result (Unit {0})}
          → table_name ≢ ""
          → (send (delete_statement table_name) w).0 ≡ none
          → Answered
              (send (insert_statement table_name query) (send (delete_statement table_name) w).1).0
              r
          → Sends table_name query w true r
              (insert_statement table_name query ∷ delete_statement table_name ∷ log w)
      added :
          {r : Result (Unit {0})}
          → table_name ≢ ""
          → Answered (send (insert_statement table_name query) w).0 r
          → Sends table_name query w false r (insert_statement table_name query ∷ log w)

    called-Answered : (what : String) (r : Option String × W) → Answered r.0 (called what r).0
    called-Answered what (none, w) = refl
    called-Answered what (some e, w) = (_, refl)

    called-log : (what : String) (r : Option String × W) → log (called what r).1 ≡ log r.1
    called-log what (none, w) = refl
    called-log what (some e, w) = refl

    store-log :
        (table_name query : String) (w : W)
        → log (store_report_results table_name query w).1
          ≡ insert_statement table_name query ∷ log w
    unfolding store_report_results
    store-log table_name query w =
        called-log "Failed to execute query" (send (insert_statement table_name query) w)
        ∙ sent (insert_statement table_name query) w

    store-Answered :
        (table_name query : String) (w : W)
        → Answered
            (send (insert_statement table_name query) w).0
            (store_report_results table_name query w).0
    unfolding store_report_results
    store-Answered table_name query w =
        called-Answered "Failed to execute query" (send (insert_statement table_name query) w)

    after_delete :
        (table_name query : String) (w : W) (r : Option String × W)
        → table_name ≢ ""
        → send (delete_statement table_name) w ≡ r
        → let x =
            continue
              (called "couldn't empty table" r)
              (λ u. store_report_results table_name query) in
          Sends table_name query w true x.0 (log x.1)
    after_delete table_name query w (some e, v) n h =
        subst (Sends table_name query w true _) (sym (ap (λ x. log x.1) (sym h) ∙ sent _ w))
          (not_deleted n (ap (λ x. x.0) h))
    after_delete table_name query w (none, v) n h =
        let l : log v ≡ delete_statement table_name ∷ log w =
          ap (λ x. log x.1) (sym h) ∙ sent (delete_statement table_name) w in
        subst (Sends table_name query w true (store_report_results table_name query v).0)
          (sym (store-log table_name query v ∙ ap (λ k. insert_statement table_name query ∷ k) l))
          (replaced n (ap (λ x. x.0) h) (
            subst
              (λ u.
                Answered (send (insert_statement table_name query) u).0
                  (store_report_results table_name query v).0)
              (ap (λ x. x.1) (sym h)) (store-Answered table_name query v)))

    with_table :
        (table_name query : String) (b : Bool) (w : W)
        → table_name ≢ ""
        → let x =
            (when b (delete_report_results table_name) >> store_report_results table_name query)
              w in
          Sends table_name query w b x.0 (log x.1)
    unfolding delete_report_results
    with_table table_name query true w n = after_delete table_name query w _ n refl
    with_table table_name query false w n =
        subst (Sends table_name query w false (store_report_results table_name query w).0)
          (sym (store-log table_name query w)) (added n (store-Answered table_name query w))

    -- Whatever Presto answers: without a table nothing is sent and it fails; else the rows are deleted first if that is asked for; the
    -- query's rows are inserted, once, exactly if no deletion is asked for or it succeeded; and the result is an
    -- error exactly if the last statement that was sent failed.
    pub generate_report-Sends :
        (table_name query : String) (b : Bool) (w : W)
        → Sends table_name query w b
            (generate_report table_name query b w).0
            (log (generate_report table_name query b w).1)
    unfolding generate_report
    generate_report-Sends table_name query b w = elim (Bool-cases (str_eq table_name "")) [
      | inl e ↦ rw e (no_table (ground (arith, e, eq_iff table_name "")))
      | inr e ↦
          rw e (with_table table_name query b w (λ x. ground (arith, e, x, eq_iff table_name "")))
    ]
