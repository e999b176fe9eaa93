-- ===== src/Storage/Atomic/Passes.antt =====
-- Actions that succeed whenever the database refuses nothing and the names are good.
use consumer_engine.Prelude.{
  ℕ, ◌≡◌, refl, ap, Option, none, some, List, [], ◌∷◌, Text, All, Result, ok, err, map_err,
}
use consumer_engine.Query.Json.{Value}
use consumer_engine.Storage.Machine.{
  StorageError, bad_ident, Statement, begin_transaction, commit, Reply, affected, table, failed,
  Writer, Action, pure, then_with, ◌>>=◌, with_tenant, counted, done_with, perform, execute,
  execute_batch, bump_write, settle, in_transaction,
}
use consumer_engine.Storage.Tables.{
  check_ident, check_idents, check_columns, found_key, raw_table_name,
}
use consumer_engine.Storage.Names.{IsIdent}

-- An action that succeeds from every state.
pub record Passes {Db A : Type 0} (body : Action Db A) : Type 0 where
  pub passed : (w : Writer Db) → (a : A) × ((body w).0 ≡ ok a)

-- A database that refuses no statement.
pub record IsWilling {Db : Type 0} (run : Statement → Db → Reply × Db) : Type 0 where
  pub takes : (s : Statement) (d : Db) → ¬ ((run s d).0 ≡ failed)

-- A reading of replies that only a refusal makes fail.
abbrev pub IsReading : {A : Type 0} → (Reply → Result StorageError A) → Type 0
IsReading {A} read = (reply : Reply) → ¬ (reply ≡ failed) → (a : A) × (read reply ≡ ok a)

counted-IsReading : IsReading counted
counted-IsReading (affected n) taken = (n, refl)
counted-IsReading (table rows) taken = (0, refl)
counted-IsReading failed taken = absurd (taken refl)

done_with-IsReading : IsReading done_with
done_with-IsReading (affected n) taken = (tt, refl)
done_with-IsReading (table rows) taken = (tt, refl)
done_with-IsReading failed taken = absurd (taken refl)

module _ {Db : Type 0} where
  pub Passes-pure : {A : Type 0} (a : A) → Passes {Db = Db} (pure a)
  Passes-pure a = record { passed = λ w. (a, refl) }

  then_outcome :
      {A B : Type 0} {next : A → Action Db B}
      → ((a : A) → Passes (next a))
      → (r : Result StorageError A × Writer Db) (a : A) → r.0 ≡ ok a
      → (b : B) × ((then_with next r).0 ≡ ok b)
  then_outcome two (ok a, w) _ h = (two a).passed w
  then_outcome two (err e, w) a h = absurd (cc h)

  pub Passes-then :
      {A B : Type 0} {first : Action Db A} {next : A → Action Db B}
      → Passes first
      → ((a : A) → Passes (next a))
      → Passes (first >>= next)
  Passes-then {first} one two = record {
    passed = λ w. then_outcome two (first w) (one.passed w).0 (one.passed w).1;
  }

  pub Passes-with_tenant :
      {A : Type 0} {use_it : Text → Action Db A}
      → ((tenant : Text) → Passes (use_it tenant))
      → Passes (with_tenant use_it)
  Passes-with_tenant each = record { passed = λ w. (each w.tenant).passed w }

  pub Passes-check_ident : (name : Text) → IsIdent name → Passes {Db = Db} (check_ident name)
  unfolding check_ident
  Passes-check_ident name ident = record { passed = λ w. (tt, ap (map_err bad_ident) ident) }

  pub Passes-check_idents :
      (names : List Text) → All IsIdent names → Passes {Db = Db} (check_idents names)
  unfolding check_idents
  Passes-check_idents [] idents = Passes-pure tt
  Passes-check_idents (c ∷ cs) idents =
      Passes-then (Passes-check_ident c idents.0) λ _. Passes-check_idents cs idents.1

  pub Passes-check_columns :
      (columns : List Text)
      → ¬ (columns ≡ [])
      → All IsIdent columns
      → Passes {Db = Db} (check_columns columns)
  unfolding check_columns
  Passes-check_columns [] some_column idents = absurd (some_column refl)
  Passes-check_columns (c ∷ cs) some_column idents = Passes-check_idents (c ∷ cs) idents

  pub Passes-found_key :
      (i : Option ℕ) (place : ℕ) → i ≡ some place → Passes {Db = Db} (found_key i)
  Passes-found_key none place found = absurd (cc found)
  Passes-found_key (some i) place found = Passes-pure i

  pub Passes-raw_table_name :
      (system entity : Text)
      → IsIdent system
      → IsIdent entity
      → Passes {Db = Db} (raw_table_name system entity)
  unfolding raw_table_name
  Passes-raw_table_name system entity s e =
      Passes-then (Passes-then (Passes-check_ident system s) λ _. Passes-check_ident entity e)
        λ _. Passes-pure _

module _ {Db : Type 0} {run : Statement → Db → Reply × Db} (willing : IsWilling run) where
  pub Passes-perform :
      {A : Type 0} (read : Reply → Result StorageError A) (s : Statement)
      → IsReading read
      → Passes (perform run read s)
  unfolding perform
  Passes-perform read s reading = record { passed = λ w. reading _ (willing.takes s w.conn) }

  pub Passes-execute : (text : Text) (params : List Value) → Passes (execute run text params)
  unfolding execute
  Passes-execute text params = Passes-perform _ _ counted-IsReading

  pub Passes-execute_batch : (text : Text) → Passes (execute_batch run text)
  unfolding execute_batch
  Passes-execute_batch text = Passes-perform _ _ done_with-IsReading

  pub Passes-bump_write : Passes {Db = Db} bump_write
  unfolding bump_write
  Passes-bump_write = record { passed = λ w. (tt, refl) }

  settle_outcome :
      {A : Type 0} (r : Result StorageError A × Writer Db) (a : A)
      → r.0 ≡ ok a
      → (b : A) × ((settle run r).0 ≡ ok b)
  settle_outcome (ok a, w) _ h =
      (Passes-then (Passes-perform _ commit done_with-IsReading)
          λ _. Passes-then Passes-bump_write λ _. Passes-pure a).passed
        w
  settle_outcome (err e, w) a h = absurd (cc h)

  pub Passes-in_transaction :
      {A : Type 0} {body : Action Db A} → Passes body → Passes (in_transaction run body)
  unfolding in_transaction
  Passes-in_transaction {body} one =
      Passes-then (Passes-perform _ begin_transaction done_with-IsReading)
        λ _. record { passed = λ w. settle_outcome (body w) (one.passed w).0 (one.passed w).1 }
