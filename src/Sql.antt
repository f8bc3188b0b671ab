-- ===== src/Sql.antt =====
-- The text of the statements for Hive (pkg/hive/query.go) and Presto (pkg/presto/util.go).
pub mod HiveQuery
pub mod PrestoQuery
use operator_metering.Prelude.{String, ◌<>◌, Bool, true, false, List, [], ◌∷◌}

-- A text that stands there only if the test holds.
abbrev pub only_if : Bool → String → String
only_if true s = s
only_if false s = ""

abbrev pub concat : List String → String
concat [] = ""
concat (s ∷ ss) = s <> concat ss

abbrev pub newline : String
newline = "\n"
