-- ===== src/DefaultSchema/Circulation.antt =====
-- `make_default_schema` of src/schema.cpp: circulation, configuration and courses.
use ldp.Base.{List, [], ◌∷◌, false, true}
use ldp.Table.{TableSchema, rmb}
use ldp.DefaultSchema.Entry.{entry}

unfoldable pub circulation_tables : List TableSchema
unfolding entry
circulation_tables =
    entry rmb false "circulation_cancellation_reasons"
      "/cancellation-reason-storage/cancellation-reasons" "mod-circulation-storage"
      "mod_circulation_storage.cancellation_reason"
    ∷ entry rmb false "circulation_check_ins" "/check-in-storage/check-ins"
        "mod-circulation-storage" "mod_circulation_storage.check_in"
    ∷ entry rmb false "circulation_fixed_due_date_schedules"
        "/fixed-due-date-schedule-storage/fixed-due-date-schedules" "mod-circulation-storage"
        "mod_circulation_storage.fixed_due_date_schedule"
    ∷ entry rmb false "circulation_loan_policies" "/loan-policy-storage/loan-policies"
        "mod-circulation-storage" "mod_circulation_storage.loan_policy"
    ∷ entry rmb false "circulation_patron_action_sessions"
        "/patron-action-session-storage/patron-action-sessions" "mod-circulation-storage"
        "mod_circulation_storage.patron_action_session"
    ∷ entry rmb false "circulation_patron_notice_policies"
        "/patron-notice-policy-storage/patron-notice-policies" "mod-circulation-storage"
        "mod_circulation_storage.patron_notice_policy"
    ∷ entry rmb false "circulation_request_policies" "/request-policy-storage/request-policies"
        "mod-circulation-storage" "mod_circulation_storage.request_policy"
    ∷ entry rmb false "circulation_request_preference"
        "/request-preference-storage/request-preference" "mod-circulation-storage"
        "mod_circulation_storage.user_request_preference"
    ∷ entry rmb false "circulation_requests" "/request-storage/requests" "mod-circulation-storage"
        "mod_circulation_storage.request"
    ∷ entry rmb false "circulation_scheduled_notices" "/scheduled-notice-storage/scheduled-notices"
        "mod-circulation-storage" "mod_circulation_storage.scheduled_notice"
    ∷ entry rmb false "circulation_staff_slips" "/staff-slips-storage/staff-slips"
        "mod-circulation-storage" "mod_circulation_storage.staff_slips"
    ∷ entry rmb true "configuration_entries" "/configurations/entries" "mod-configuration"
        "mod_configuration.config_data"
    ∷ entry rmb false "course_copyrightstatuses" "/coursereserves/copyrightstatuses" "mod-courses"
        "mod_courses.coursereserves_copyrightstates"
    ∷ entry rmb false "course_courselistings" "/coursereserves/courselistings" "mod-courses"
        "mod_courses.coursereserves_courselistings"
    ∷ entry rmb false "course_courses" "/coursereserves/courses" "mod-courses"
        "mod_courses.coursereserves_courses"
    ∷ entry rmb false "course_coursetypes" "/coursereserves/coursetypes" "mod-courses"
        "mod_courses.coursereserves_coursetypes"
    ∷ entry rmb false "course_departments" "/coursereserves/departments" "mod-courses"
        "mod_courses.coursereserves_departments"
    ∷ entry rmb false "course_processingstatuses" "/coursereserves/processingstatuses" "mod-courses"
        "mod_courses.coursereserves_processingstates"
    ∷ entry rmb false "course_reserves" "/coursereserves/reserves" "mod-courses"
        "mod_courses.coursereserves_reserves"
    ∷ entry rmb false "course_roles" "/coursereserves/roles" "mod-courses"
        "mod_courses.coursereserves_roles"
    ∷ entry rmb false "course_terms" "/coursereserves/terms" "mod-courses"
        "mod_courses.coursereserves_terms"
    ∷ []
