-- ===== src/Handler/Page.antt =====
-- A page of records: the reader's calls, and the step from one record to the next.
use ldp.Base.{◌-◌, true, List, [], ◌∷◌, ◌++◌, Bytes, codes, ok, ◌>>=◌, >>=_assoc, ◌≡◌, ◌∙◌, arith}
use ldp.Handler.Text.{value_onto, value_text, run-members}
use ldp.Handler.{Event, Env, Handler, finish_record, step, run}
use ldp.Json.{object, Members}

abbrev pub records_onto : List Members → List Event → List Event
records_onto [] rest = rest
records_onto (ms ∷ rs) rest = value_onto (object ms) (records_onto rs rest)

-- The reader's calls for a page: an object whose one member is the array of the records.
abbrev pub page_events : Bytes → List Members → List Event
page_events name rs =
    Event.start_object
    ∷ Event.key name
    ∷ Event.start_array
    ∷ records_onto rs (Event.end_array ∷ Event.end_object ∷ [])

module _ (env : Env) where
  open_record :
      (rest : List Event) (h : Handler)
      → h.level ≡ 2
      → run env (Event.start_object ∷ rest) h
        ≡ run env rest (record h { level = 3; record_text = codes "{" })
  unfolding run step
  open_record rest h l = ground arith

  close_record :
      (rest : List Event) (h : Handler) (t : Bytes)
      → run env (Event.end_object ∷ rest) (record h { level = 3; record_text = t }) ≡ (
          finish_record env (record h { level = 3; record_text = t ++ codes "}" }) >>= λ h'.
          run env rest (record h' { level = h'.level - 1 }))
  unfolding run step
  close_record rest h t =
      >>=_assoc (finish_record env (record h { level = 3; record_text = t ++ codes "}" }))
        (λ h'. ok (record h' { level = h'.level - 1 })) (run env rest)

  -- A record between two others, read by the handler, is finished with its printed text.
  pub run-record :
      (ms : Members) (rest : List Event) (h : Handler)
      → h.active ≡ true
      → h.level ≡ 2
      → run env (value_onto (object ms) rest) h ≡ (
          finish_record env (record h { level = 3; record_text = value_text (object ms) }) >>= λ h'.
          run env rest (record h' { level = h'.level - 1 }))
  run-record ms rest h a l =
      open_record _ h l
      ∙ run-members env ms (Event.end_object ∷ rest) _ (a, omega arith)
      ∙ close_record rest h _
