-- ===== src/Upgrades/TableNames.antt =====
-- The array `table` of src/dbup1.cpp: the tables of the program when the upgrades 1, 2, 6, 10 and
-- 11 were written. Each of the five writes the same array out.
use ldp.Base.{List, [], ◌∷◌, Bytes, codes}

unfoldable pub table_array : List Bytes
table_array =
    codes "circulation_cancellation_reasons"
    ∷ codes "circulation_fixed_due_date_schedules"
    ∷ codes "circulation_loan_policies"
    ∷ codes "circulation_loans"
    ∷ codes "circulation_loan_history"
    ∷ codes "circulation_patron_action_sessions"
    ∷ codes "circulation_patron_notice_policies"
    ∷ codes "circulation_request_policies"
    ∷ codes "circulation_requests"
    ∷ codes "circulation_scheduled_notices"
    ∷ codes "circulation_staff_slips"
    ∷ codes "feesfines_accounts"
    ∷ codes "feesfines_comments"
    ∷ codes "feesfines_feefines"
    ∷ codes "feesfines_feefineactions"
    ∷ codes "feesfines_lost_item_fees_policies"
    ∷ codes "feesfines_manualblocks"
    ∷ codes "feesfines_overdue_fines_policies"
    ∷ codes "feesfines_owners"
    ∷ codes "feesfines_payments"
    ∷ codes "feesfines_refunds"
    ∷ codes "feesfines_transfer_criterias"
    ∷ codes "feesfines_transfers"
    ∷ codes "feesfines_waives"
    ∷ codes "finance_budgets"
    ∷ codes "finance_fiscal_years"
    ∷ codes "finance_fund_types"
    ∷ codes "finance_funds"
    ∷ codes "finance_group_fund_fiscal_years"
    ∷ codes "finance_groups"
    ∷ codes "finance_ledgers"
    ∷ codes "finance_transactions"
    ∷ codes "inventory_alternative_title_types"
    ∷ codes "inventory_call_number_types"
    ∷ codes "inventory_classification_types"
    ∷ codes "inventory_contributor_name_types"
    ∷ codes "inventory_contributor_types"
    ∷ codes "inventory_electronic_access_relationships"
    ∷ codes "inventory_holdings_note_types"
    ∷ codes "inventory_holdings"
    ∷ codes "inventory_holdings_types"
    ∷ codes "inventory_identifier_types"
    ∷ codes "inventory_ill_policies"
    ∷ codes "inventory_instance_formats"
    ∷ codes "inventory_instance_note_types"
    ∷ codes "inventory_instance_relationship_types"
    ∷ codes "inventory_instance_statuses"
    ∷ codes "inventory_instance_relationships"
    ∷ codes "inventory_instances"
    ∷ codes "inventory_instance_types"
    ∷ codes "inventory_item_damaged_statuses"
    ∷ codes "inventory_item_note_types"
    ∷ codes "inventory_items"
    ∷ codes "inventory_campuses"
    ∷ codes "inventory_institutions"
    ∷ codes "inventory_libraries"
    ∷ codes "inventory_loan_types"
    ∷ codes "inventory_locations"
    ∷ codes "inventory_material_types"
    ∷ codes "inventory_modes_of_issuance"
    ∷ codes "inventory_nature_of_content_terms"
    ∷ codes "inventory_service_points"
    ∷ codes "inventory_service_points_users"
    ∷ codes "inventory_statistical_code_types"
    ∷ codes "inventory_statistical_codes"
    ∷ codes "invoice_lines"
    ∷ codes "invoice_invoices"
    ∷ codes "invoice_voucher_lines"
    ∷ codes "invoice_vouchers"
    ∷ codes "acquisitions_memberships"
    ∷ codes "acquisitions_units"
    ∷ codes "po_alerts"
    ∷ codes "po_order_invoice_relns"
    ∷ codes "po_order_templates"
    ∷ codes "po_pieces"
    ∷ codes "po_lines"
    ∷ codes "po_purchase_orders"
    ∷ codes "po_receiving_history"
    ∷ codes "po_reporting_codes"
    ∷ codes "organization_addresses"
    ∷ codes "organization_categories"
    ∷ codes "organization_contacts"
    ∷ codes "organization_emails"
    ∷ codes "organization_interfaces"
    ∷ codes "organization_organizations"
    ∷ codes "organization_phone_numbers"
    ∷ codes "organization_urls"
    ∷ codes "user_groups"
    ∷ codes "user_users"
    ∷ []
