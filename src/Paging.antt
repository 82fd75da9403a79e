-- ===== src/Paging.antt =====
-- src/paging.cpp: whether a page holds a record. The reader stops when a handler returns false.
use ldp.Base.{
  ℕ, ◌+◌, ◌-◌, Bool, true, false, not, List, [], ◌∷◌, ◌==◌, length, if◌then◌else◌, Bytes, ◌≡◌, refl,
  arith,
}
use ldp.Handler.{Event}
use ldp.Handler.Page.{page_events}
use ldp.Json.{Members}

record Paging : Type 0 where
  level : ℕ
  found_record : Bool

-- The handlers' new state, and what they return.
on_event : Event → Paging → Paging × Bool
on_event Event.start_object h =
    if h.level == 2
    then (record h { found_record = true }, false)
    else (record h { level = h.level + 1 }, true)
on_event Event.end_object h = (record h { level = h.level - 1 }, true)
on_event Event.start_array h = (record h { level = h.level + 1 }, true)
on_event Event.end_array h = (record h { level = h.level - 1 }, true)
on_event _ h = (h, true)

read_until : List Event → Paging → Paging
read_until [] h = h
read_until (e ∷ es) h =
    let (h', goes_on) = on_event e h in let rest = read_until es h' in if goes_on then rest else h'

-- `page_is_empty`, on the reader's calls for the file.
unfoldable pub page_is_empty : List Event → Bool
unfolding read_until on_event
page_is_empty events =
    not (read_until events (record { level = 0; found_record = false })).found_record

-- A page is found empty exactly when its array has no records.
pub page_is_empty-page_events :
    (name : Bytes) (rs : List Members) → page_is_empty (page_events name rs) ≡ (length rs == 0)
unfolding page_is_empty
page_is_empty-page_events name [] = refl
page_is_empty-page_events name (ms ∷ rs) = ground arith
