-- ===== src/Storage/Machine.antt =====
-- The connection, the state of the `Writer`, and its actions: each may fail, and leaves the state
-- that it reached in either case.
use consumer_engine.Prelude.{
  ℕ, ◌+◌, ◌^◌, ◌%◌, Bool, Option, none, some, List, [], Text, Result, ok, err,
}
use consumer_engine.Core.Ident.{IdentError}
use consumer_engine.Query.Json.{Json, Value}

-- The places that build an `Error`; `panicked` is `chunks(0)`.
pub data StorageError : Type 0 where
  bad_ident : IdentError → StorageError
  bad_feature_name : IdentError → StorageError
  bad_producer_id : IdentError → StorageError
  columns_empty : StorageError
  key_not_a_column : StorageError
  dimension_mismatch : StorageError
  storage : StorageError
  panicked : StorageError

-- `BEGIN TRANSACTION`, `COMMIT` and `ROLLBACK` stand apart from the other statements.
pub data Statement : Type 0 where
  begin_transaction : Statement
  commit : Statement
  rollback : Statement
  sql : Text → List Value → Statement

-- A row count, the rows of a query, or an error of `prepare` or `execute`.
pub data Reply : Type 0 where
  affected : ℕ → Reply
  table : List (List Json) → Reply
  failed : Reply

pub record Writer (Db : Type 0) : Type 0 where
  pub conn : Db
  pub write_gen : Option ℕ
  pub maintenance_available : Bool
  pub tenant : Text

abbrev pub Action : Type 0 → Type 0 → Type 0
Action Db A = Writer Db → Result StorageError A × Writer Db

abbrev pub pure : {Db A : Type 0} → A → Action Db A
pure a w = (ok a, w)

abbrev pub raise : {Db A : Type 0} → StorageError → Action Db A
raise e w = (err e, w)

infixl 5 ◌>>=◌ ◌>>◌
abbrev pub then_with :
    {Db A B : Type 0}
    → (A → Action Db B)
    → Result StorageError A × Writer Db
    → Result StorageError B × Writer Db
then_with next (ok a, w) = next a w
then_with next (err e, w) = (err e, w)

abbrev pub ◌>>=◌ : {Db A B : Type 0} → Action Db A → (A → Action Db B) → Action Db B
◌>>=◌ first next w = then_with next (first w)

abbrev pub ◌>>◌ : {Db B : Type 0} → Action Db (Unit {0}) → Action Db B → Action Db B
first >> next = first >>= (λ _. next)

-- A check that touches nothing.
abbrev pub lift : {Db A : Type 0} → Result StorageError A → Action Db A
lift r w = (r, w)

-- `self.tenant.clone()`
abbrev pub with_tenant : {Db A : Type 0} → (Text → Action Db A) → Action Db A
with_tenant use_it w = use_it w.tenant w

-- `fetch_add(1)` on the counter that the read pool shares, if one is wired.
abbrev pub advanced : Option ℕ → Option ℕ
advanced none = none
advanced (some g) = some ((g + 1) % 2 ^ 64)

unfoldable pub bump_write : {Db : Type 0} → Action Db (Unit {0})
bump_write w = (ok tt, record w { write_gen = advanced w.write_gen })

unfoldable pub set_tenant : {Db : Type 0} → Text → Writer Db → Writer Db
set_tenant tenant w = record w { tenant = tenant }

abbrev pub counted : Reply → Result StorageError ℕ
counted (affected n) = ok n
counted (table rows) = ok 0
counted failed = err storage

abbrev pub done_with : Reply → Result StorageError (Unit {0})
done_with failed = err storage
done_with _ = ok tt

abbrev pub rows_of : Reply → Result StorageError (List (List Json))
rows_of (table rows) = ok rows
rows_of (affected n) = ok []
rows_of failed = err storage

module _ {Db : Type 0} (run : Statement → Db → Reply × Db) where
  unfoldable pub perform : {A : Type 0} → (Reply → Result StorageError A) → Statement → Action Db A
  perform read s w = let (reply, db) = run s w.conn in (read reply, record w { conn = db })

  -- `prepare` and `execute`
  unfoldable pub execute : Text → List Value → Action Db ℕ
  execute statement params = perform counted (sql statement params)

  unfoldable pub execute_batch : Text → Action Db (Unit {0})
  execute_batch statement = perform done_with (sql statement [])

  -- `query_map`
  unfoldable pub query : Text → List Value → Action Db (List (List Json))
  query statement params = perform rows_of (sql statement params)

  -- `match outcome`: the commit and the new generation, or the rollback, whose reply is dropped.
  abbrev pub settle :
      {A : Type 0} → Result StorageError A × Writer Db → Result StorageError A × Writer Db
  settle (ok a, w) = (perform done_with commit >> (bump_write >> pure a)) w
  settle (err e, w) = (err e, (perform done_with rollback w).1)

  -- The frame of `apply_cdc_batch` and `write_features_and_refresh`.
  unfoldable pub in_transaction : {A : Type 0} → Action Db A → Action Db A
  in_transaction body = perform done_with begin_transaction >> (λ w. settle (body w))
