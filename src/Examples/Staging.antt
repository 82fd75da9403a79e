-- ===== src/Examples/Staging.antt =====
-- Examples on the handler of a page.
use ldp.Base.{◌-◌, true, [], ◌∷◌, codes, length, ◌>>=◌, ◌≡◌, refl}
use ldp.Examples.{env_example, user}
use ldp.Handler.Load.{Loads, rows, run-page_events}
use ldp.Handler.Page.{page_events, run-record}
use ldp.Handler.Text.{value_onto, value_text}
use ldp.Handler.{Event, Handler, finish_record, initial, run}
use ldp.Json.{object}

run-page_events_example :
    Loads
      (length (user ∷ []))
      (rows env_example (user ∷ []))
      (run env_example (page_events (codes "users") (user ∷ [])) (initial []))
run-page_events_example = run-page_events env_example (codes "users") (user ∷ []) refl (λ b. refl)

abbrev in_array : Handler
in_array = record (initial []) { level = 2; active = true }

run-record_example : run env_example (value_onto (object user) (Event.end_array ∷ [])) in_array ≡ (
    finish_record env_example
      (record in_array { level = 3; record_text = value_text (object user) })
    >>= λ h'. run env_example (Event.end_array ∷ []) (record h' { level = h'.level - 1 }))
run-record_example = run-record env_example user (Event.end_array ∷ []) in_array refl refl
