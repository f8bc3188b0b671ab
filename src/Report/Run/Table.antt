-- ===== src/Report/Run/Table.antt =====
-- The table of a Report: the part of `runReport` (pkg/operator/reports.go) that makes it or finds it, and
-- `FullyQualifiedTableName` and `GeneratePrestoColumns` of pkg/operator/reportingutil/util.go.
use operator_metering.Prelude.{
  String, ◌<>◌, Bool, false, ◌||◌, Option, none, some, List, [], str_eq, if◌then◌else◌,
}
use operator_metering.Kube.{
  invalid, call_failed, panicked, Result, ok, err, Act, ◌>>=◌, ◌>>◌, return, fail, reject, ignored,
}
use operator_metering.Columns.{
  Column, Converted, rejected, converted, panics, presto_columns_to_hive_columns,
}
use operator_metering.Dependencies.{Query}
use operator_metering.Hive.Tables.{
  HiveTable, PrestoTable, TableParameters, Creation, made, already_exists, not_made,
}
use operator_metering.Hive.Tables.Resource.{
  no_table_parameters, new_hive_table, create_hive_table_cr,
}
use operator_metering.Report.{Report}
use operator_metering.Report.Run.Dependents.{queue_dependents}
use operator_metering.Report.Run.{ReportApi, HiveStorage}

-- FullyQualifiedTableName
unfoldable pub fully_qualified_table_name : PrestoTable → Result String
fully_qualified_table_name t =
    let s = t.status in
    if str_eq s.catalog "" || (str_eq s.schema "" || str_eq s.table_name "")
    then err (invalid "PrestoTable status is invalid")
    else ok (s.catalog <> ("." <> (s.schema <> ("." <> s.table_name))))

abbrev pub table_formats : Option (String × String) → TableParameters → TableParameters
table_formats none p = p
table_formats (some (row_format, file_format)) p = record p {
  row_format = row_format;
  file_format = file_format;
}

abbrev pub set_table_ref : Report → String → Report
set_table_ref r name = let s = r.status in record r { status = record s { table_ref = name } }

module _ {W : Type 0} (api : ReportApi W) (to_lower replace : String → String)
    (enable_finalizers : Bool) where
  abbrev pub lift : {T : Type 0} → Result T → Act W T
  lift r w = (r, w)

  abbrev pub hive_columns : Converted (List Column) → Act W (List Column)
  hive_columns (rejected e) = fail (invalid "unable to convert Presto columns to Hive columns")
  hive_columns panics = fail (panicked "PrestoColumnsToHiveColumns")
  hive_columns (converted cs) = return cs

  -- ReportTableName; `replace` is the replacer of the characters that a name cannot have
  unfoldable pub report_table_name : Report → String
  report_table_name r = "report_" <> (replace r.namespace <> ("_" <> replace r.name))

  abbrev pub table_parameters : Report → HiveStorage → List Column → TableParameters
  table_parameters r s cs = table_formats s.formats (record no_table_parameters {
    database = s.database_name;
    name = report_table_name r;
    columns = cs;
  })

  abbrev pub data_source_made : Creation (Unit {0}) × W → Result (Unit {0}) × W
  data_source_made (made u, w) = (ok tt, w)
  data_source_made (already_exists u, w) = (ok tt, w)
  data_source_made (not_made e, w) = (err (call_failed "create ReportDataSource" e), w)

  abbrev pub report_hive_table : Report → HiveStorage → List Column → HiveTable
  report_hive_table r s cs =
      new_hive_table to_lower enable_finalizers "Report" r.namespace r.name
        (table_parameters r s cs) false []

  -- the hive table and the Presto table of a new report
  unfoldable pub create_tables :
      Report → HiveStorage → List Column → Act W (HiveTable × PrestoTable)
  create_tables r s cs =
      create_hive_table_cr api.create_hive_table api.get_hive_table (report_hive_table r s cs)
      >>= λ t. api.wait_for_hive_table t.meta.namespace t.meta.name >>= λ t'.
          api.wait_for_presto_table t'.meta.namespace t'.meta.name >>= λ p. return (t', p)

  abbrev pub create_source : Report → PrestoTable → Act W (Unit {0})
  create_source r p w = data_source_made (api.create_data_source ("report-" <> r.name) p w)

  abbrev pub queue_all : Report → Act W (Unit {0})
  queue_all r w = ignored (queue_dependents api r w)

  -- The reference to the table is stored, and then the dependents are queued.
  unfoldable pub store_table_ref : Report → HiveTable × PrestoTable → Act W (PrestoTable × Report)
  store_table_ref r ts =
      api.update_report (set_table_ref r ts.0.meta.name) >>= λ r'. queue_all r' >> return (ts.1, r')

  unfoldable pub use_tables : Report → HiveTable × PrestoTable → Act W (PrestoTable × Report)
  use_tables r ts = lift (fully_qualified_table_name ts.1) >>= λ name.
      create_source r ts.1 >> store_table_ref r ts

  unfoldable pub create_in : Report → Query → HiveStorage → Act W (PrestoTable × Report)
  create_in r query s =
      hive_columns (presto_columns_to_hive_columns (api.query_columns query)) >>= λ cs.
      create_tables r s cs >>= use_tables r

  -- the branch of a report without a table
  unfoldable pub create_table : Report → Query → Act W (PrestoTable × Report)
  create_table r query = api.get_hive_storage r >>= λ s.
      reject (str_eq s.database_name "") (invalid "Hive database does not exist yet")
      >> create_in r query s

  -- the branch of a report that has a table
  unfoldable pub find_table : Report → Act W (PrestoTable × Report)
  find_table r = api.get_presto_table r.namespace r.status.table_ref >>= λ p.
      lift (fully_qualified_table_name p) >>= λ name. return (p, r)

  -- The Presto table and the report as it is stored.
  unfoldable pub ensure_table : Report → Query → Act W (PrestoTable × Report)
  ensure_table r query = if str_eq r.status.table_ref "" then create_table r query else find_table r
