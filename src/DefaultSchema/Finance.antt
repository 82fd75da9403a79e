-- ===== src/DefaultSchema/Finance.antt =====
-- `make_default_schema` of src/schema.cpp: mail, fees and fines, and finance.
use ldp.Base.{List, [], ◌∷◌, false}
use ldp.Table.{TableSchema, rmb}
use ldp.DefaultSchema.Entry.{entry}

unfoldable pub finance_tables : List TableSchema
unfolding entry
finance_tables =
    entry rmb false "email_email" "/email" "mod-email" "mod_email.email_statistics"
    ∷ entry rmb false "feesfines_comments" "/comments" "mod-feesfines" "mod_feesfines.comments"
    ∷ entry rmb false "feesfines_feefines" "/feefines" "mod-feesfines" "mod_feesfines.feefines"
    ∷ entry rmb false "feesfines_lost_item_fees_policies" "/lost-item-fees-policies" "mod-feesfines"
        "mod_feesfines.lost_item_fee_policy"
    ∷ entry rmb false "feesfines_manualblocks" "/manualblocks" "mod-feesfines"
        "mod_feesfines.manualblocks"
    ∷ entry rmb false "feesfines_overdue_fines_policies" "/overdue-fines-policies" "mod-feesfines"
        "mod_feesfines.overdue_fine_policy"
    ∷ entry rmb false "feesfines_owners" "/owners" "mod-feesfines" "mod_feesfines.owners"
    ∷ entry rmb false "feesfines_payments" "/payments" "mod-feesfines" "mod_feesfines.payments"
    ∷ entry rmb false "feesfines_refunds" "/refunds" "mod-feesfines" "mod_feesfines.refunds"
    ∷ entry rmb false "feesfines_transfer_criterias" "/transfer-criterias" "mod-feesfines"
        "mod_feesfines.transfer_criteria"
    ∷ entry rmb false "feesfines_transfers" "/transfers" "mod-feesfines" "mod_feesfines.transfers"
    ∷ entry rmb false "feesfines_waives" "/waives" "mod-feesfines" "mod_feesfines.waives"
    ∷ entry rmb false "finance_budgets" "/finance-storage/budgets" "mod-finance-storage"
        "mod_finance_storage.budget"
    ∷ entry rmb false "finance_expense_classes" "/finance-storage/expense-classes"
        "mod-finance-storage" "mod_finance_storage.expense_class"
    ∷ entry rmb false "finance_fiscal_years" "/finance-storage/fiscal-years" "mod-finance-storage"
        "mod_finance_storage.fiscal_year"
    ∷ entry rmb false "finance_fund_types" "/finance-storage/fund-types" "mod-finance-storage"
        "mod_finance_storage.fund_type"
    ∷ entry rmb false "finance_funds" "/finance-storage/funds" "mod-finance-storage"
        "mod_finance_storage.fund"
    ∷ entry rmb false "finance_group_fund_fiscal_years" "/finance-storage/group-fund-fiscal-years"
        "mod-finance-storage" "mod_finance_storage.group_fund_fiscal_year"
    ∷ entry rmb false "finance_groups" "/finance-storage/groups" "mod-finance-storage"
        "mod_finance_storage.groups"
    ∷ entry rmb false "finance_ledgers" "/finance-storage/ledgers" "mod-finance-storage"
        "mod_finance_storage.ledger"
    ∷ []
