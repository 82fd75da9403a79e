-- ===== src/DefaultSchema/Inventory.antt =====
-- `make_default_schema` of src/schema.cpp: inventory.
use ldp.Base.{List, [], ◌∷◌, false}
use ldp.Table.{TableSchema, rmb}
use ldp.DefaultSchema.Entry.{entry}

unfoldable pub inventory_tables : List TableSchema
unfolding entry
inventory_tables =
    entry rmb false "inventory_alternative_title_types" "/alternative-title-types"
      "mod-inventory-storage" "mod_inventory_storage.alternative_title_type"
    ∷ entry rmb false "inventory_call_number_types" "/call-number-types" "mod-inventory-storage"
        "mod_inventory_storage.call_number_type"
    ∷ entry rmb false "inventory_campuses" "/location-units/campuses" "mod-inventory-storage"
        "mod_inventory_storage.loccampus"
    ∷ entry rmb false "inventory_classification_types" "/classification-types"
        "mod-inventory-storage" "mod_inventory_storage.classification_type"
    ∷ entry rmb false "inventory_contributor_name_types" "/contributor-name-types"
        "mod-inventory-storage" "mod_inventory_storage.contributor_name_type"
    ∷ entry rmb false "inventory_contributor_types" "/contributor-types" "mod-inventory-storage"
        "mod_inventory_storage.contributor_type"
    ∷ entry rmb false "inventory_electronic_access_relationships" "/electronic-access-relationships"
        "mod-inventory-storage" "mod_inventory_storage.electronic_access_relationship"
    ∷ entry rmb false "inventory_holdings_note_types" "/holdings-note-types" "mod-inventory-storage"
        "mod_inventory_storage.holdings_note_type"
    ∷ entry rmb false "inventory_holdings_types" "/holdings-types" "mod-inventory-storage"
        "mod_inventory_storage.holdings_type"
    ∷ entry rmb false "inventory_identifier_types" "/identifier-types" "mod-inventory-storage"
        "mod_inventory_storage.identifier_type"
    ∷ entry rmb false "inventory_ill_policies" "/ill-policies" "mod-inventory-storage"
        "mod_inventory_storage.ill_policy"
    ∷ entry rmb false "inventory_instance_formats" "/instance-formats" "mod-inventory-storage"
        "mod_inventory_storage.instance_format"
    ∷ entry rmb false "inventory_instance_note_types" "/instance-note-types" "mod-inventory-storage"
        "mod_inventory_storage.instance_note_type"
    ∷ entry rmb false "inventory_instance_relationship_types" "/instance-relationship-types"
        "mod-inventory-storage" "mod_inventory_storage.instance_relationship_type"
    ∷ entry rmb false "inventory_instance_relationships" "/instance-storage/instance-relationships"
        "mod-inventory-storage" "mod_inventory_storage.instance_relationship"
    ∷ entry rmb false "inventory_instance_statuses" "/instance-statuses" "mod-inventory-storage"
        "mod_inventory_storage.instance_status"
    ∷ entry rmb false "inventory_instance_types" "/instance-types" "mod-inventory-storage"
        "mod_inventory_storage.instance_type"
    ∷ entry rmb false "inventory_item_damaged_statuses" "/item-damaged-statuses"
        "mod-inventory-storage" "mod_inventory_storage.item_damaged_status"
    ∷ entry rmb false "inventory_item_note_types" "/item-note-types" "mod-inventory-storage"
        "mod_inventory_storage.item_note_type"
    ∷ entry rmb false "inventory_institutions" "/location-units/institutions"
        "mod-inventory-storage" "mod_inventory_storage.locinstitution"
    ∷ entry rmb false "inventory_libraries" "/location-units/libraries" "mod-inventory-storage"
        "mod_inventory_storage.loclibrary"
    ∷ entry rmb false "inventory_loan_types" "/loan-types" "mod-inventory-storage"
        "mod_inventory_storage.loan_type"
    ∷ entry rmb false "inventory_locations" "/locations" "mod-inventory-storage"
        "mod_inventory_storage.location"
    ∷ entry rmb false "inventory_material_types" "/material-types" "mod-inventory-storage"
        "mod_inventory_storage.material_type"
    ∷ entry rmb false "inventory_modes_of_issuance" "/modes-of-issuance" "mod-inventory-storage"
        "mod_inventory_storage.mode_of_issuance"
    ∷ entry rmb false "inventory_nature_of_content_terms" "/nature-of-content-terms"
        "mod-inventory-storage" "mod_inventory_storage.nature_of_content_term"
    ∷ entry rmb false "inventory_service_points" "/service-points" "mod-inventory-storage"
        "mod_inventory_storage.service_point"
    ∷ entry rmb false "inventory_service_points_users" "/service-points-users"
        "mod-inventory-storage" "mod_inventory_storage.service_point_user"
    ∷ entry rmb false "inventory_statistical_code_types" "/statistical-code-types"
        "mod-inventory-storage" "mod_inventory_storage.statistical_code_type"
    ∷ entry rmb false "inventory_statistical_codes" "/statistical-codes" "mod-inventory-storage"
        "mod_inventory_storage.statistical_code"
    ∷ entry rmb false "inventory_holdings_sources" "/holdings-sources" "mod-inventory-storage"
        "mod_inventory_storage.holdings_records_source"
    ∷ entry rmb false "inventory_bound_with_part" "/inventory-storage/bound-with-parts"
        "mod-inventory-storage" "mod_inventory_storage.bound_with_part"
    ∷ []
