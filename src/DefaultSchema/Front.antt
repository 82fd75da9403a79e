-- ===== src/DefaultSchema/Front.antt =====
-- `make_default_schema` of src/schema.cpp: the tables that are updated first, and those of the first modules.
use ldp.Base.{List, [], ◌∷◌, false, true}
use ldp.Table.{TableSchema, direct_only, rmb, srs_error_records, srs_marc_records, srs_records}
use ldp.DefaultSchema.Entry.{entry}

unfoldable pub front_tables : List TableSchema
unfolding entry
front_tables =
    entry srs_records false "srs_records" "srs::records_lb" "mod-source-record-storage"
      "mod_source_record_storage.records_lb"
    ∷ entry rmb false "inventory_instances" "/instance-storage/instances" "mod-inventory-storage"
        "mod_inventory_storage.instance"
    ∷ entry rmb false "inventory_items" "/item-storage/items" "mod-inventory-storage"
        "mod_inventory_storage.item"
    ∷ entry srs_marc_records false "srs_marc" "srs::marc_records_lb" "mod-source-record-storage"
        "mod_source_record_storage.marc_records_lb"
    ∷ entry rmb false "inventory_holdings" "/holdings-storage/holdings" "mod-inventory-storage"
        "mod_inventory_storage.holdings_record"
    ∷ entry rmb false "circulation_loan_history" "/loan-storage/loan-history"
        "mod-circulation-storage" "mod_circulation_storage.audit_loan"
    ∷ entry rmb true "audit_circulation_logs" "/audit-data/circulation/logs" "mod-audit"
        "mod_audit.circulation_logs"
    ∷ entry rmb false "po_receiving_history" "/orders-storage/receiving-history"
        "mod-orders-storage" "mod_orders_storage.receiving_history_view"
    ∷ entry rmb false "feesfines_accounts" "/accounts" "mod-feesfines" "mod_feesfines.accounts"
    ∷ entry rmb true "user_users" "/users" "mod-users" "mod_users.users"
    ∷ entry rmb false "circulation_loans" "/loan-storage/loans" "mod-circulation-storage"
        "mod_circulation_storage.loan"
    ∷ entry rmb false "po_lines" "/orders-storage/po-lines" "mod-orders-storage"
        "mod_orders_storage.po_line"
    ∷ entry rmb false "finance_transactions" "/finance-storage/transactions" "mod-orders-storage"
        "mod_finance_storage.transaction"
    ∷ entry srs_error_records false "srs_error" "srs::error_records_lb" "mod-orders-storage"
        "mod_source_record_storage.error_records_lb"
    ∷ entry direct_only false "perm_permissions" "perm::permissions" "mod-permissions"
        "mod_permissions.permissions"
    ∷ entry direct_only false "perm_users" "perm::permissions_users" "mod-permissions"
        "mod_permissions.permissions_users"
    ∷ entry direct_only false "patron_blocks_user_summary" "patron_blocks::user_summary"
        "mod-patron-blocks" "mod_patron_blocks.user_summary"
    ∷ entry rmb false "feesfines_feefineactions" "/feefineactions" "mod-feesfines"
        "mod_feesfines.feefineactions"
    ∷ entry rmb false "po_purchase_orders" "/orders-storage/purchase-orders" "mod-orders-storage"
        "mod_orders_storage.purchase_order"
    ∷ entry rmb false "po_pieces" "/orders-storage/pieces" "mod-orders-storage"
        "mod_orders_storage.pieces"
    ∷ entry rmb false "acquisition_method" "/orders-storage/acquisition-methods"
        "mod-orders-storage" "mod_orders_storage.acquisition_method"
    ∷ []
