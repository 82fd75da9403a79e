-- ===== src/Anonymize.antt =====
-- src/anonymize.cpp: the fields that are dropped from every table when data are anonymized.
use ldp.Base.{List, [], ◌∷◌, Bytes, codes}
use ldp.Fields.{FieldSet, insert}

abbrev pub anonymize_field_list : List (Bytes × Bytes)
anonymize_field_list =
    (codes "acquisitions_memberships", codes "/userId")
    ∷ (codes "circulation_check_ins", codes "/performedByUserId")
    ∷ (codes "circulation_loans", codes "/userId")
    ∷ (codes "circulation_loans", codes "/proxyUserId")
    ∷ (codes "circulation_loan_history", codes "/loan")
    ∷ (codes "circulation_patron_action_sessions", codes "/patronId")
    ∷ (codes "circulation_requests", codes "/proxyUserId")
    ∷ (codes "circulation_requests", codes "/requesterId")
    ∷ (codes "circulation_requests", codes "/requester/firstName")
    ∷ (codes "circulation_requests", codes "/requester/lastName")
    ∷ (codes "circulation_requests", codes "/requester/middleName")
    ∷ (codes "circulation_requests", codes "/requester/barcode")
    ∷ (codes "circulation_requests", codes "/requester/patronGroup")
    ∷ (codes "circulation_requests", codes "/proxy/firstName")
    ∷ (codes "circulation_requests", codes "/proxy/lastName")
    ∷ (codes "circulation_requests", codes "/proxy/middleName")
    ∷ (codes "circulation_requests", codes "/proxy/barcode")
    ∷ (codes "circulation_requests", codes "/proxy/patronGroup")
    ∷ (codes "circulation_scheduled_notices", codes "/recipientUserId")
    ∷ (codes "feesfines_accounts", codes "/userId")
    ∷ (codes "feesfines_feefineactions", codes "/userId")
    ∷ (codes "feesfines_owners", codes "/owner")
    ∷ (codes "inventory_items", codes "/circulationNotes/source/id")
    ∷ (codes "inventory_items", codes "/circulationNotes/source/personal")
    ∷ (codes "inventory_items", codes "/circulationNotes/source/personal/lastName")
    ∷ (codes "inventory_items", codes "/circulationNotes/source/personal/firstName")
    ∷ (codes "inventory_items", codes "/lastCheckIn/staffMemberId")
    ∷ (codes "inventory_service_points_users", codes "/userId")
    ∷ (codes "invoice_invoices", codes "/approvedBy")
    ∷ (codes "organization_contacts", codes "/prefix")
    ∷ (codes "organization_contacts", codes "/firstName")
    ∷ (codes "organization_contacts", codes "/lastName")
    ∷ (codes "organization_contacts", codes "/language")
    ∷ (codes "organization_contacts", codes "/notes")
    ∷ (codes "organization_contacts", codes "/phoneNumbers")
    ∷ (codes "organization_contacts", codes "/emails")
    ∷ (codes "organization_emails", codes "/value")
    ∷ (codes "organization_emails", codes "/language")
    ∷ (codes "organization_organizations", codes "/edi/ediJob/sendToEmails")
    ∷ (codes "organization_organizations", codes "/contacts")
    ∷ (codes "organization_organizations", codes "/emails")
    ∷ (codes "organization_organizations", codes "/phoneNumbers")
    ∷ (codes "organization_phone_numbers", codes "/phoneNumber")
    ∷ (codes "organization_phone_numbers", codes "/language")
    ∷ (codes "patron_blocks_user_summary", codes "/userId")
    ∷ (codes "po_lines", codes "/requester")
    ∷ (codes "po_lines", codes "/selector")
    ∷ (codes "po_purchase_orders", codes "/approvedById")
    ∷ (codes "po_purchase_orders", codes "/assignedTo")
    ∷ (codes "po_purchase_orders", codes "/vendor")
    ∷ (codes "po_purchase_orders", codes "/billTo")
    ∷ (codes "po_purchase_orders", codes "/shipTo")
    ∷ (codes "po_order_templates", codes "/vendor")
    ∷ (codes "po_order_templates", codes "/billTo")
    ∷ (codes "po_order_templates", codes "/shipTo")
    ∷ []

-- The loop over the list.
insert_all : List (Bytes × Bytes) → FieldSet → FieldSet
insert_all [] fields = fields
insert_all ((table, field) ∷ entries) fields = insert_all entries (insert table field fields)

unfoldable pub load_anonymize_field_list : FieldSet → FieldSet
unfolding insert_all
load_anonymize_field_list fields = insert_all anonymize_field_list fields
