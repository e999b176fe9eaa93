-- ===== src/Storage/Atomic.antt =====
-- What a transaction of the `Writer` leaves behind, over a database of which `view` is the part
-- that other connections see.
pub mod Bodies
pub mod Checks
pub mod Cdc
pub mod Features
pub mod Passes
pub mod Willing
use consumer_engine.Prelude.{
  ℕ, ◌≡◌, refl, sym, ap, subst, ◌∙◌, Bool, Option, List, [], Text, Result, ok, err,
}
use consumer_engine.Query.Json.{Value}
use consumer_engine.Storage.Machine.{
  StorageError, Statement, begin_transaction, commit, rollback, sql, Reply, failed, Writer, Action,
  advanced, pure, settle, perform, done_with, in_transaction, bump_write, then_with, ◌>>◌, affected,
  table,
}

-- The states of a transaction that was begun at `d`: after a `BEGIN` that was not refused, and
-- after each statement.
pub data Inside {Db : Type 0} (run : Statement → Db → Reply × Db) (d : Db) : Db → Type 0 where
  begun : ¬ ((run begin_transaction d).0 ≡ failed) → Inside run d (run begin_transaction d).1
  after :
      {e : Db}
      → Inside run d e
      → (text : Text) (params : List Value) → Inside run d (run (sql text params) e).1

-- Those of them that are reached without any statement being refused.
pub data Applied {Db : Type 0} (run : Statement → Db → Reply × Db) (d : Db) : Db → Type 0 where
  opened : ¬ ((run begin_transaction d).0 ≡ failed) → Applied run d (run begin_transaction d).1
  applied :
      {e : Db}
      → Applied run d e
      → (text : Text) (params : List Value) → ¬ ((run (sql text params) e).0 ≡ failed)
      → Applied run d (run (sql text params) e).1

-- What the code relies on: what others see does not change by `BEGIN`, by a statement of an open
-- transaction, by `ROLLBACK`, or by a `COMMIT` that fails.
pub record Isolation {Db V : Type 0} (run : Statement → Db → Reply × Db) (view : Db → V)
    : Type 0 where
  pub begin_keeps : (d : Db) → view (run begin_transaction d).1 ≡ view d
  pub sql_keeps :
      {d e : Db}
      → Inside run d e
      → (text : Text) (params : List Value) → view (run (sql text params) e).1 ≡ view e
  pub rollback_keeps : {d e : Db} → Inside run d e → view (run rollback e).1 ≡ view e
  pub commit_keeps :
      {d e : Db} → Inside run d e → (run commit e).0 ≡ failed → view (run commit e).1 ≡ view e

-- Success: the database took every statement of the transaction and then its `COMMIT`, and the
-- generation was advanced once.
pub record IsCommitted {Db : Type 0} (run : Statement → Db → Reply × Db) (before after : Writer Db)
    : Type 0 where
  pub last : Db
  pub inside : Applied run before.conn last
  pub accepted : ¬ ((run commit last).0 ≡ failed)
  pub committed : after.conn ≡ (run commit last).1
  pub advances : after.write_gen ≡ advanced before.write_gen

-- Where a write that failed leaves the database: no statement was run, `BEGIN` was refused, the
-- transaction was rolled back, or its `COMMIT` was refused.
pub data IsAbandoned {Db : Type 0} (run : Statement → Db → Reply × Db) (d : Db) : Db → Type 0 where
  untouched : IsAbandoned run d d
  not_begun : (run begin_transaction d).0 ≡ failed → IsAbandoned run d (run begin_transaction d).1
  rolled_back : {e : Db} → Inside run d e → IsAbandoned run d (run rollback e).1
  not_committed :
      {e : Db} → Inside run d e → (run commit e).0 ≡ failed → IsAbandoned run d (run commit e).1

-- A failure, besides, leaves what others see, and the generation.
abbrev pub IsAtomic :
    {Db V A : Type 0}
    → (Statement → Db → Reply × Db)
    → (Db → V)
    → Writer Db
    → Result StorageError A × Writer Db
    → Type 0
IsAtomic run view w (ok a, w') = IsCommitted run w w'
IsAtomic run view w (err e, w') =
    IsAbandoned run w.conn w'.conn × (view w'.conn ≡ view w.conn) × (w'.write_gen ≡ w.write_gen)

-- An action whose statements are all `sql`, and which succeeds only if all of them do.
pub record Keeps {Db A : Type 0} (run : Statement → Db → Reply × Db) (body : Action Db A)
    : Type 0 where
  pub stays : {d : Db} (w : Writer Db) → Inside run d w.conn → Inside run d (body w).1.conn
  pub succeeds :
      {d : Db} (w : Writer Db) (a : A)
      → (body w).0 ≡ ok a
      → Applied run d w.conn
      → Applied run d (body w).1.conn
  pub same_gen : (w : Writer Db) → (body w).1.write_gen ≡ w.write_gen

module _ {Db V : Type 0} (run : Statement → Db → Reply × Db) (view : Db → V)
    (isolation : Isolation run view) where
  Inside-view : {d e : Db} → Inside run d e → view e ≡ view d
  Inside-view (begun _) = isolation.begin_keeps _
  Inside-view (after inside text params) =
      isolation.sql_keeps inside text params ∙ Inside-view inside

  is_taken : {reply answer : Reply} → reply ≡ answer → ¬ (answer ≡ failed) → ¬ (reply ≡ failed)
  is_taken e taken h = taken (sym e ∙ h)

  commit_outcome :
      {A : Type 0} (a : A) (w w' : Writer Db) (answer : Reply) (db : Db)
      → Path (Reply × Db) (run commit w'.conn) (answer, db)
      → Inside run w.conn w'.conn
      → Applied run w.conn w'.conn
      → w'.write_gen ≡ w.write_gen
      → IsAtomic run view w
          (then_with (λ _. bump_write >> pure a) (done_with answer, record w' { conn = db }))
  unfolding bump_write
  commit_outcome a w w' failed db e inside whole same = (
    subst (IsAbandoned run w.conn) (ap (λ r. r.1) e) (not_committed inside (ap (λ r. r.0) e)),
    ap (λ r. view r.1) (sym e)
        ∙ isolation.commit_keeps inside (ap (λ r. r.0) e)
        ∙ Inside-view inside,
    same,
  )
  commit_outcome a w w' (affected n) db e inside whole same = record {
    last = w'.conn;
    inside = whole;
    accepted = is_taken (ap (λ r. r.0) e) λ h. cc;
    committed = ap (λ r. r.1) (sym e);
    advances = ap advanced same;
  }
  commit_outcome a w w' (table rows) db e inside whole same = record {
    last = w'.conn;
    inside = whole;
    accepted = is_taken (ap (λ r. r.0) e) λ h. cc;
    committed = ap (λ r. r.1) (sym e);
    advances = ap advanced same;
  }

  settle-IsAtomic :
      {A : Type 0} (w : Writer Db) (r : Result StorageError A × Writer Db)
      → Inside run w.conn r.1.conn
      → ((a : A) → r.0 ≡ ok a → Applied run w.conn r.1.conn)
      → r.1.write_gen ≡ w.write_gen
      → IsAtomic run view w (settle run r)
  unfolding perform
  settle-IsAtomic w (ok a, w') inside whole same =
      commit_outcome a w w' (run commit w'.conn).0 (run commit w'.conn).1 refl inside (whole a refl)
        same
  settle-IsAtomic w (err e, w') inside whole same =
      (rolled_back inside, isolation.rollback_keeps inside ∙ Inside-view inside, same)

  begun_outcome :
      {A : Type 0} {body : Action Db A}
      → Keeps run body
      → (w : Writer Db) (db : Db) → (run begin_transaction w.conn).1 ≡ db
      → ¬ ((run begin_transaction w.conn).0 ≡ failed)
      → IsAtomic run view w (settle run (body (record w { conn = db })))
  begun_outcome keeps w db e some_begin =
      settle-IsAtomic w _ (keeps.stays _ (subst (Inside run w.conn) e (begun some_begin)))
        (λ a h. keeps.succeeds _ a h (subst (Applied run w.conn) e (opened some_begin)))
        (keeps.same_gen _)

  begin_outcome :
      {A : Type 0} {body : Action Db A}
      → Keeps run body
      → (w : Writer Db) (answer : Reply) (db : Db)
      → Path (Reply × Db) (run begin_transaction w.conn) (answer, db)
      → IsAtomic run view w
          (then_with (λ _ w'. settle run (body w')) (done_with answer, record w { conn = db }))
  begin_outcome keeps w failed db e = (
    subst (IsAbandoned run w.conn) (ap (λ r. r.1) e) (not_begun (ap (λ r. r.0) e)),
    ap (λ r. view r.1) (sym e) ∙ isolation.begin_keeps w.conn,
    refl,
  )
  begin_outcome keeps w (affected n) db e =
      begun_outcome keeps w db (ap (λ r. r.1) e) (is_taken (ap (λ r. r.0) e) λ h. cc)
  begin_outcome keeps w (table rows) db e =
      begun_outcome keeps w db (ap (λ r. r.1) e) (is_taken (ap (λ r. r.0) e) λ h. cc)

  pub in_transaction-IsAtomic :
      {A : Type 0} {body : Action Db A}
      → Keeps run body
      → (w : Writer Db) → IsAtomic run view w (in_transaction run body w)
  unfolding in_transaction perform
  in_transaction-IsAtomic keeps w =
      begin_outcome keeps w (run begin_transaction w.conn).0 (run begin_transaction w.conn).1 refl
