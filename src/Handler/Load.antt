-- ===== src/Handler/Load.antt =====
-- A page of records in the second pass: what COPY is given.
use ldp.Base.{
  ℕ, suc, ◌+◌, ◌-◌, true, false, List, [], ◌∷◌, ◌++◌, append_assoc, append-nil, ltb, Bytes, codes,
  c_str, length, Result, ok, runtime_error, ◌>>=◌, ◌≡◌, refl, sym, ap, subst, ◌∙◌, arith,
  Bool-cases, inl, inr,
}
use ldp.Handler.Finish.{Finishes, row_of, finish_record-Finishes}
use ldp.Handler.Page.{records_onto, page_events, run-record}
use ldp.Handler.Text.{value_onto, value_text}
use ldp.Handler.{Event, Env, Handler, initial, end_copy_batch, job, finish_record, step, run}
use ldp.Json.{Value, object, Members}
use ldp.JsonText.{encode_json}
use ldp.Records.{process_json_record}
use ldp.Tuple.{write_tuple}

module _ (env : Env) where
  -- The record as it is read back from its text, with its fields dropped.
  abbrev pub staged : Members → Value
  staged ms =
      (process_json_record (job env) (env.rapidjson.parse (c_str (value_text (object ms)))) []).0

  -- One row for each record, in order; the first error ends the rows.
  abbrev pub rows : List Members → Result Bytes
  rows [] = ok []
  rows (ms ∷ rs) = do
    t ← write_tuple env.rapidjson env.columns (staged ms) []
    ts ← rows rs
    ok (t ++ ts)

-- The second pass, with a server that takes all that it is sent.
module _ (env : Env) (second : env.pass ≡ 2)
    (takes : (b : Bytes) → env.put_copy_data b ≡ ok tt) where
  -- Between two records: what is not sent is in the buffer, which is empty if no record waits.
  record Between (h : Handler) : Type 0 where
    active_is : h.active ≡ true
    level_is : h.level ≡ 2
    stats_is : h.stats ≡ []
    none_waits : h.record_count ≡ 0 → h.copy_buffer ≡ []

  -- What `n` records add before the events `rest`: the rows `t`, or the error.
  abbrev Adds : Handler → ℕ → List Event → Result Bytes → Result Handler → Type 0
  Adds h n rest (ok t) result =
      (h' : Handler) × (result ≡ run env rest h')
      × Between h'
      × (h'.sent ++ h'.copy_buffer ≡ (h.sent ++ h.copy_buffer) ++ t)
      × (h'.total_record_count ≡ h.total_record_count + n)
  Adds h n rest (runtime_error e) result = result ≡ runtime_error e

  begun : Handler → Members → Handler
  begun h ms = record h { level = 3; record_text = value_text (object ms) }

  run-record-Adds :
      (ms : Members) (rest : List Event) (h : Handler)
      → Between h
      → Adds h 1 rest
          (write_tuple env.rapidjson env.columns (staged env ms) [])
          (run env (value_onto (object ms) rest) h)
  unfolding begun
  run-record-Adds ms rest h b = rw (run-record env ms rest h b.active_is b.level_is) (
      subst
        (λ s.
          Adds h 1 rest
            (write_tuple env.rapidjson env.columns
              (process_json_record (job env) (env.rapidjson.parse (c_str (value_text (object ms))))
                s).0
              [])
            (finish_record env (begun h ms) >>= λ h'.
              run env rest (record h' { level = h'.level - 1 })))
        b.stats_is
        (after (row_of env second takes (begun h ms)) (finish_record env (begun h ms))
          (finish_record-Finishes env second takes (begun h ms))))
    where
      after :
          (row : Result Bytes) (result : Result Handler)
          → Finishes env second takes (begun h ms) row result
          → Adds h 1 rest row (result >>= λ h'. run env rest (record h' { level = h'.level - 1 }))
      after (ok t) result (h', e, written, waits, total, active, level, stats) = (
        record h' { level = h'.level - 1 },
        ap (λ m. m >>= λ h'. run env rest (record h' { level = h'.level - 1 })) e,
        record {
          active_is = active ∙ b.active_is;
          level_is = omega arith;
          stats_is = stats ∙ b.stats_is;
          none_waits = λ z. absurd (omega arith);
        },
        written,
        total,
      )
      after (runtime_error x) result e =
          ap (λ m. m >>= λ h'. run env rest (record h' { level = h'.level - 1 })) e

  run-records-Adds :
      (rs : List Members) (rest : List Event) (h : Handler)
      → Between h
      → Adds h (length rs) rest (rows env rs) (run env (records_onto rs rest) h)
  run-records-Adds [] rest h b = (h, refl, b, sym (append-nil _), omega arith)
  run-records-Adds (ms ∷ rs) rest h b =
      after (run-records-Adds rs rest) (write_tuple env.rapidjson env.columns (staged env ms) []) _
        (run-record-Adds ms (records_onto rs rest) h b)
    where
      later :
          (h' : Handler) (t : Bytes) (more : Result Bytes) (result : Result Handler)
          → h'.sent ++ h'.copy_buffer ≡ (h.sent ++ h.copy_buffer) ++ t
          → h'.total_record_count ≡ h.total_record_count + 1
          → Adds h' (length rs) rest more result
          → Adds h (suc (length rs)) rest (more >>= λ ts. ok (t ++ ts)) result
      later h' t (ok ts) result w n (h'', e, b'', w', n') =
          (h'', e, b'', w' ∙ ap (λ x. x ++ ts) w ∙ append_assoc _ t ts, omega arith)
      later h' t (runtime_error x) result w n e = e

      after :
          ((h' : Handler)
            → Between h'
            → Adds h' (length rs) rest (rows env rs) (run env (records_onto rs rest) h'))
          → (row : Result Bytes) (result : Result Handler)
          → Adds h 1 (records_onto rs rest) row result
          → Adds h (suc (length rs)) rest (row >>= λ t. (rows env rs >>= λ ts. ok (t ++ ts))) result
      after ih (ok t) result (h', e, b', w, n) =
          later h' t (rows env rs) result w n
            (subst (λ m. Adds h' (length rs) rest (rows env rs) m) (sym e) (ih h' b'))
      after ih (runtime_error x) result e = e

  -- After the last record the buffer is sent, if a record waits.
  run_end :
      (h : Handler)
      → Between h
      → (h' : Handler) × (run env (Event.end_array ∷ Event.end_object ∷ []) h ≡ ok h')
        × (h'.sent ≡ h.sent ++ h.copy_buffer)
        × (h'.copy_buffer ≡ [])
        × (h'.total_record_count ≡ h.total_record_count)
        × (h'.level ≡ 0)
  unfolding run step end_copy_batch
  run_end h b = elim (Bool-cases (ltb 0 h.record_count)) [
    | inl e ↦ (
      record h { level = 0; active = false; sent = h.sent ++ h.copy_buffer; copy_buffer = [] },
      ground (arith, takes h.copy_buffer),
      refl,
      refl,
      refl,
      refl,
    )
    | inr e ↦
        let empty : h.copy_buffer ≡ [] = b.none_waits (ground arith) in
        (
          record h { level = 0; active = false },
          ground arith,
          sym (ap (λ x. h.sent ++ x) empty ∙ append-nil h.sent),
          empty,
          refl,
          refl,
        )
  ]

  run_begin :
      (name : Bytes) (rest : List Event)
      → run env (Event.start_object ∷ Event.key name ∷ Event.start_array ∷ rest) (initial [])
        ≡ run env rest (record (initial []) {
          level = 2;
          active = true;
          record_text = b'"' ∷ (encode_json name [] ++ codes "\":");
        })
  unfolding run step
  run_begin name rest = refl

-- The rows of `n` records have been sent and nothing waits, or the error of a record is thrown.
abbrev pub Loads : ℕ → Result Bytes → Result Handler → Type 0
Loads n (ok t) result =
    (h : Handler) × (result ≡ ok h)
    × (h.sent ≡ t)
    × (h.copy_buffer ≡ [])
    × (h.total_record_count ≡ n)
    × (h.level ≡ 0)
Loads n (runtime_error e) result = result ≡ runtime_error e

-- In the second pass, over a connection that takes what it is sent, a page is loaded completely: if
-- every record has an id, the handler ends with exactly the records' rows given to COPY, in order,
-- however the buffer was emptied on the way, with nothing left in the buffer and every record
-- counted. Otherwise it ends with the error of the first record that has none. The rows are those
-- of the records as read back from their printed text, with the fields to drop dropped.
pub run-page_events :
    (env : Env) (name : Bytes) (rs : List Members)
    → env.pass ≡ 2
    → ((b : Bytes) → env.put_copy_data b ≡ ok tt)
    → Loads (length rs) (rows env rs) (run env (page_events name rs) (initial []))
run-page_events env name rs second takes = rw run_begin (
    after (rows env rs) _ (
      run-records-Adds env second takes rs (Event.end_array ∷ Event.end_object ∷ []) start
        (record { active_is = refl; level_is = refl; stats_is = refl; none_waits = λ _. refl })))
  where
    start : Handler
    start = record (initial []) {
      level = 2;
      active = true;
      record_text = b'"' ∷ (encode_json name [] ++ codes "\":");
    }

    after :
        (t : Result Bytes) (result : Result Handler)
        → Adds env second takes start (length rs) (Event.end_array ∷ Event.end_object ∷ []) t result
        → Loads (length rs) t result
    after (ok t) result (h, e, b, w, n) =
        let (h', e', sent, empty, total, level) = run_end env second takes h b in
        (h', e ∙ e', sent ∙ w, empty, omega (arith, total, n), level)
    after (runtime_error x) result e = e
