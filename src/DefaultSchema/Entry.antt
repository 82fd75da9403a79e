-- ===== src/DefaultSchema/Entry.antt =====
-- One table of `make_default_schema` of src/schema.cpp: the members of the `table` that the code
-- pushes, with the values that they have there. No table is skipped and none has columns.
use ldp.Base.{Bool, false, [], String, codes}
use ldp.Table.{TableSchema, DataSourceType}

unfoldable pub entry : DataSourceType → Bool → String → String → String → String → TableSchema
entry source_type anonymize name source_spec module_name direct_source_table = record {
  skip = false;
  anonymize = anonymize;
  name = codes name;
  source_spec = codes source_spec;
  source_type = source_type;
  columns = [];
  module_name = codes module_name;
  direct_source_table = codes direct_source_table;
}
