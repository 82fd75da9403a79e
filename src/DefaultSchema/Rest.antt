-- ===== src/DefaultSchema/Rest.antt =====
-- `make_default_schema` of src/schema.cpp: invoices, notes, orders, organizations, users and templates.
use ldp.Base.{List, [], ◌∷◌, false, true}
use ldp.Table.{TableSchema, notes, notes_link, notes_note_link, rmb}
use ldp.DefaultSchema.Entry.{entry}

unfoldable pub rest_tables : List TableSchema
unfolding entry
rest_tables =
    entry rmb false "invoice_invoices" "/invoice-storage/invoices" "mod-invoice-storage"
      "mod_invoice_storage.invoices"
    ∷ entry rmb false "invoice_lines" "/invoice-storage/invoice-lines" "mod-invoice-storage"
        "mod_invoice_storage.invoice_lines"
    ∷ entry rmb false "invoice_voucher_lines" "/voucher-storage/voucher-lines" "mod-invoice-storage"
        "mod_invoice_storage.voucher_lines"
    ∷ entry rmb false "invoice_vouchers" "/voucher-storage/vouchers" "mod-invoice-storage"
        "mod_invoice_storage.vouchers"
    ∷ entry notes true "notes" "/notes" "mod-notes" "mod_notes.note"
    ∷ entry notes_link false "notes_link" "" "mod-notes" "mod_notes.link"
    ∷ entry notes_note_link false "notes_note_link" "" "mod-notes" "mod_notes.note_link"
    ∷ entry rmb false "acquisitions_memberships" "/acquisitions-units-storage/memberships"
        "mod-orders-storage" "mod_orders_storage.acquisitions_unit_membership"
    ∷ entry rmb false "acquisitions_units" "/acquisitions-units-storage/units" "mod-orders-storage"
        "mod_orders_storage.acquisitions_unit"
    ∷ entry rmb false "po_alerts" "/orders-storage/alerts" "mod-orders-storage"
        "mod_orders_storage.alert"
    ∷ entry rmb false "po_order_invoice_relns" "/orders-storage/order-invoice-relns"
        "mod-orders-storage" "mod_orders_storage.order_invoice_relationship"
    ∷ entry rmb false "po_order_templates" "/orders-storage/order-templates" "mod-orders-storage"
        "mod_orders_storage.order_templates"
    ∷ entry rmb false "po_reporting_codes" "/orders-storage/reporting-codes" "mod-orders-storage"
        "mod_orders_storage.reporting_code"
    ∷ entry rmb false "organization_addresses" "/organizations-storage/addresses"
        "mod-organizations-storage" "mod_organizations_storage.addresses"
    ∷ entry rmb false "organization_categories" "/organizations-storage/categories"
        "mod-organizations-storage" "mod_organizations_storage.categories"
    ∷ entry rmb false "organization_contacts" "/organizations-storage/contacts"
        "mod-organizations-storage" "mod_organizations_storage.contacts"
    ∷ entry rmb false "organization_emails" "/organizations-storage/emails"
        "mod-organizations-storage" "mod_organizations_storage.emails"
    ∷ entry rmb false "organization_interfaces" "/organizations-storage/interfaces"
        "mod-organizations-storage" "mod_organizations_storage.interfaces"
    ∷ entry rmb false "organization_organizations" "/organizations-storage/organizations"
        "mod-organizations-storage" "mod_organizations_storage.organizations"
    ∷ entry rmb false "organization_phone_numbers" "/organizations-storage/phone-numbers"
        "mod-organizations-storage" "mod_organizations_storage.phone_numbers"
    ∷ entry rmb false "organization_urls" "/organizations-storage/urls" "mod-organizations-storage"
        "mod_organizations_storage.urls"
    ∷ entry rmb false "user_addresstypes" "/addresstypes" "mod-users" "mod_users.addresstype"
    ∷ entry rmb false "user_departments" "/departments" "mod-users" "mod_users.departments"
    ∷ entry rmb false "user_groups" "/groups" "mod-users" "mod_users.groups"
    ∷ entry rmb false "user_proxiesfor" "/proxiesfor" "mod-users" "mod_users.proxyfor"
    ∷ entry rmb false "template_engine_template" "/templates" "mod-template-engine"
        "mod_template_engine.template"
    ∷ []
