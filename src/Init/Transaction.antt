-- ===== src/Init/Transaction.antt =====
-- Runs inside a transaction: what they leave of the contents that are committed.
use ldp.Base.{
  Bool, true, false, ◌||◌, List, [], ◌∷◌, All, if◌then◌else◌, ◌==◌, Bytes, codes, Result, ok,
  runtime_error, ◌≡◌, refl, ◌∙◌,
}
use ldp.Init.{Connection, then_run, exec_all}

-- The text begins with the word.
abbrev pub begins_with : Bytes → Bytes → Bool
begins_with [] s = true
begins_with (c ∷ word) [] = false
begins_with (c ∷ word) (b ∷ s) = if b == c then begins_with word s else false

-- The commands that the staging of a table sends; none of them ends a transaction.
abbrev pub is_plain : Bytes → Bool
is_plain sql =
    begins_with (codes "COPY ") sql
    || begins_with (codes "CREATE ") sql
    || begins_with (codes "DROP ") sql
    || begins_with (codes "ALTER ") sql
    || begins_with (codes "GRANT ") sql
    || begins_with (codes "INSERT ") sql
    || begins_with (codes "DELETE ") sql
    || begins_with (codes "SELECT ") sql
    || begins_with (codes "VACUUM ") sql

module _ {S D : Type 0} (conn : Connection S) (committed : S → D) (IsOpen : S → Type 0) where
  abbrev pub OpenAfter {ℓ} : {A : Type ℓ} → S → Result A → Type 0
  OpenAfter s (ok a) = IsOpen s
  OpenAfter s (runtime_error e) = Unit

  -- A run from `s` that commits nothing, and leaves the transaction open if it returns.
  abbrev pub Inside {ℓ} : {A : Type ℓ} → S → S × Result A → Type 0
  Inside s m = (committed (m.0) ≡ committed s) × OpenAfter (m.0) (m.1)

  -- A plain statement in an open transaction commits nothing and leaves it open, or fails.
  abbrev pub PlainInside : Type 0
  PlainInside = (s : S) (sql : Bytes) → is_plain sql ≡ true → IsOpen s → Inside s (conn.exec s sql)

  pub Inside-then_run {ℓ κ} :
      {A : Type ℓ} {B : Type κ} (s : S) (m : S × Result A) (f : S → A → S × Result B)
      → Inside s m
      → ((t : S) (a : A) → IsOpen t → Inside t (f t a))
      → Inside s (then_run m f)
  unfolding then_run
  Inside-then_run s (t, ok a) f (k, o) h = let (k', o') = h t a o in (k' ∙ k, o')
  Inside-then_run s (t, runtime_error e) f (k, o) h = (k, tt)

  pub Inside-exec_all :
      (plain : PlainInside) (s : S) (sqls : List Bytes)
      → All (λ sql. is_plain sql ≡ true) sqls
      → IsOpen s
      → Inside s (exec_all conn s sqls)
  unfolding exec_all
  Inside-exec_all plain s [] h o = (refl, o)
  Inside-exec_all plain s (sql ∷ sqls) (h, hs) o =
      Inside-then_run s (conn.exec s sql) (λ t rows. exec_all conn t sqls) (plain s sql h o)
        (λ t rows. Inside-exec_all plain t sqls hs)
