-- ===== src/Handler/Finish.antt =====
-- The end of one record in the second pass: its row behind what has been written.
use ldp.Base.{
  ◌+◌, ◌-◌, ◌<◌, [], ◌++◌, append_assoc, append-nil, ltb, ==_iff, Bytes, c_str, length, Result, ok,
  runtime_error, ◌>>=◌, >>=_assoc, ◌≡◌, refl, sym, ap, subst, ◌∙◌, arith, Bool-cases, inl, inr,
}
use ldp.Handler.{Env, Handler, copy_buffer_size, make_room, job, load_record, finish_record}
use ldp.Json.{Value}
use ldp.Records.Stats.{loading, process_json_record_passes}
use ldp.Records.{FieldStats, process_json_record}
use ldp.Tuple.Append.{write_tuple-append}
use ldp.Tuple.{write_tuple}

-- The second pass, with a server that takes all that it is sent.
module _ (env : Env) (second : env.pass ≡ 2)
    (takes : (b : Bytes) → env.put_copy_data b ≡ ok tt) where
  job-loading : job env ≡ loading (job env)
  job-loading = ground arith

  stats_stay : (v : Value) (s : FieldStats) → (process_json_record (job env) v s).1 ≡ s
  stats_stay v s =
      subst (λ j. (process_json_record j v s).1 ≡ s) (sym job-loading)
        (process_json_record_passes (job env) v s s).1

  -- What a flush keeps.
  record Kept (h h' : Handler) : Type 0 where
    written_is : h'.sent ++ h'.copy_buffer ≡ h.sent ++ h.copy_buffer
    total_is : h'.total_record_count ≡ h.total_record_count
    active_is : h'.active ≡ h.active
    level_is : h'.level ≡ h.level
    stats_is : h'.stats ≡ h.stats

  make_room-Kept : (h : Handler) → (h' : Handler) × (make_room env h ≡ ok h') × Kept h h'
  unfolding make_room
  make_room-Kept h = elim (Bool-cases (ltb (copy_buffer_size - 2000000) (length h.copy_buffer))) [
    | inl e ↦ (
      record h { sent = h.sent ++ h.copy_buffer; copy_buffer = []; record_count = 0 },
      rw (e, takes h.copy_buffer),
      record {
        written_is = append-nil _;
        total_is = refl;
        active_is = refl;
        level_is = refl;
        stats_is = refl;
      },
    )
    | inr e ↦ (
      h,
      rw e,
      record {
        written_is = refl;
        total_is = refl;
        active_is = refl;
        level_is = refl;
        stats_is = refl;
      },
    )
  ]

  -- What a record adds: `row` is what is written, or the error.
  abbrev pub Finishes : Handler → Result Bytes → Result Handler → Type 0
  Finishes h (ok t) result =
      (h' : Handler) × (result ≡ ok h')
      × (h'.sent ++ h'.copy_buffer ≡ (h.sent ++ h.copy_buffer) ++ t)
      × (0 < h'.record_count)
      × (h'.total_record_count ≡ h.total_record_count + 1)
      × (h'.active ≡ h.active)
      × (h'.level ≡ h.level)
      × (h'.stats ≡ h.stats)
  Finishes h (runtime_error e) result = result ≡ runtime_error e

  abbrev pub row_of : Handler → Result Bytes
  row_of h =
      write_tuple env.rapidjson env.columns
        (process_json_record (job env) (env.rapidjson.parse (c_str h.record_text)) h.stats).0 []

  abbrev with_row : Handler → Bytes → Handler
  with_row h t = record h {
    copy_buffer = h.copy_buffer ++ t;
    record_count = h.record_count + 1;
    total_record_count = h.total_record_count + 1;
  }

  abbrev counted : Handler → Handler
  counted h = record h {
    stats = (process_json_record (job env) (env.rapidjson.parse (c_str h.record_text)) h.stats).1;
  }

  load_record-row :
      (doc : Value) (h h1 : Handler)
      → make_room env h ≡ ok h1
      → load_record env doc h
        ≡ (write_tuple env.rapidjson env.columns doc [] >>= λ t. ok (with_row h1 t))
  unfolding load_record
  load_record-row doc h h1 room =
      rw (room, write_tuple-append env.rapidjson env.columns doc h1.copy_buffer)
        (>>=_assoc (write_tuple env.rapidjson env.columns doc []) _ _)

  finish_record-row :
      (h h1 : Handler)
      → make_room env (counted h) ≡ ok h1
      → finish_record env h ≡ (row_of h >>= λ t. ok (with_row h1 t))
  unfolding finish_record
  finish_record-row h h1 room =
      rw ((==_iff env.pass 2).1 second) (load_record-row _ (counted h) h1 room)

  pub finish_record-Finishes : (h : Handler) → Finishes h (row_of h) (finish_record env h)
  finish_record-Finishes h =
      let (h1, room, kept) = make_room-Kept (counted h) in
      rw (finish_record-row h h1 room) (after h1 kept (row_of h))
    where
      after :
          (h1 : Handler)
          → Kept (counted h) h1
          → (row : Result Bytes) → Finishes h row (row >>= λ t. ok (with_row h1 t))
      after h1 k (ok t) = (
        with_row h1 t,
        refl,
        sym (append_assoc h1.sent h1.copy_buffer t) ∙ ap (λ x. x ++ t) k.written_is,
        omega arith,
        omega (arith, k.total_is),
        k.active_is,
        k.level_is,
        k.stats_is ∙ stats_stay _ h.stats,
      )
      after h1 k (runtime_error e) = refl
