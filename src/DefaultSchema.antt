-- ===== src/DefaultSchema.antt =====
-- The tables of `make_default_schema` of src/schema.cpp, in the order in which they are updated.
pub mod Entry
pub mod Front
pub mod Circulation
pub mod Finance
pub mod Inventory
pub mod Rest
use ldp.Base.{List, ◌++◌}
use ldp.Table.{TableSchema}
use Front.{front_tables}
use Circulation.{circulation_tables}
use Finance.{finance_tables}
use Inventory.{inventory_tables}
use Rest.{rest_tables}

unfoldable pub make_default_schema : List TableSchema
unfolding front_tables circulation_tables finance_tables inventory_tables rest_tables
make_default_schema =
    front_tables ++ circulation_tables ++ finance_tables ++ inventory_tables ++ rest_tables
