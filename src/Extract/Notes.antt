-- ===== src/Extract/Notes.antt =====
-- The notes that an extraction writes.
use ldp.Base.{List, [], ◌∷◌, map, Option, Bytes, codes, ◌≡◌, refl}
use ldp.Extract.{
  Row, retrieve_direct_notes, select_list, json_string, json_boolean, object_text, value_at,
}
use ldp.Table.{notes}
use ldp.TextUtil.{getline_tokens}

-- A row that answers a SELECT of columns: one value for each name of its list.
abbrev pub answers : (Bytes → Option Bytes) → Bytes → Row
answers column names = map column (getline_tokens b',' names [])

-- The members of a note, each with the column that it is written from.
abbrev pub note_members : (Bytes → Option Bytes) → List (Bytes × Bytes)
note_members column =
    (codes "id", json_string (column (codes "id")))
    ∷ (codes "title", json_string (column (codes "title")))
    ∷ (codes "content", json_string (column (codes "content")))
    ∷ (codes "indexedContent", json_string (column (codes "indexed_content")))
    ∷ (codes "domain", json_string (column (codes "domain")))
    ∷ (codes "typeId", json_string (column (codes "type_id")))
    ∷ (codes "popUpOnUser", json_boolean (column (codes "pop_up_on_user")))
    ∷ (codes "popUpOnCheckOut", json_boolean (column (codes "pop_up_on_user")))
    ∷ (codes "createdBy", json_string (column (codes "created_by")))
    ∷ (codes "createdDate", json_string (column (codes "created_date")))
    ∷ (codes "updatedBy", json_string (column (codes "updated_by")))
    ∷ (codes "updatedDate", json_string (column (codes "updated_date")))
    ∷ []

-- For a database that answers each name of a SELECT with one value: each member of a note is
-- written from the column of its name, but `popUpOnCheckOut`, which is written from the column
-- `pop_up_on_user` as `popUpOnUser` is.
pub retrieve_direct_notes-answers :
    (column : Bytes → Option Bytes)
    → retrieve_direct_notes (answers column (select_list notes []))
      ≡ object_text (note_members column)
unfolding retrieve_direct_notes value_at select_list getline_tokens
retrieve_direct_notes-answers column = refl
