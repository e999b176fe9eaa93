-- ===== src/Tests/Storage.antt =====
-- A toy database: a count of statements, the count inside a transaction, and how many more succeed.
use consumer_engine.Prelude.{
  text_eq, ok, All, ℕ, zero, suc, pos, ◌≡◌, ◌⊎◌, refl, Bool, true, false, Option, none, some, List,
  [], ◌∷◌, text, arith,
}
use consumer_engine.Core.Ident.{validate_ident}
use consumer_engine.Storage.Machine.{
  Statement, begin_transaction, commit, rollback, sql, Reply, affected, failed, Writer,
}
use consumer_engine.Storage.Dedup.{Row, dedup_by_key}
use consumer_engine.Storage.Dedup.Positions.{rows_with, only_last}
use consumer_engine.Storage.Atomic.Willing.{apply_cdc_batch_succeeds}
use consumer_engine.Storage.Dedup.Keyed.{IsKeyedOf, dedup_by_key-IsKeyedOf}
use consumer_engine.Storage.Dedup.Laws.{dedup_by_key-last}
use consumer_engine.Storage.Tables.{position, stamped, ingest_raw}
use consumer_engine.Storage.Names.{IsNamed, IsKeyed, ingest_raw-IsNamed, apply_cdc_batch-IsKeyed}
use consumer_engine.Storage.Chunks.{insert_chunked}
use consumer_engine.Storage.Bounds.{IsFitting, insert_chunked-IsFitting}
use consumer_engine.Storage.Merges.{apply_cdc_batch}
use consumer_engine.Storage.Features.{FeatureRow, write_features_and_refresh}
use consumer_engine.Storage.Atomic.{Inside, begun, after, Isolation, IsAtomic}
use consumer_engine.Storage.Atomic.Cdc.{apply_cdc_batch-IsAtomic}
use consumer_engine.Storage.Atomic.Features.{write_features_and_refresh-IsAtomic}

record Toy : Type 0 where
  committed : ℕ
  inner : Option ℕ
  budget : ℕ

abbrev toy_begin : Toy → Option ℕ → Reply × Toy
toy_begin d none = (affected 0, record d { inner = some d.committed })
toy_begin d (some n) = (failed, d)

abbrev toy_sql : Toy → ℕ → Option ℕ → Reply × Toy
toy_sql d zero o = (failed, d)
toy_sql d (suc left) none = (affected 1, record d { committed = suc d.committed; budget = left })
toy_sql d (suc left) (some n) = (affected 1, record d { inner = some (suc n); budget = left })

abbrev toy_commit : Toy → Option ℕ → Reply × Toy
toy_commit d none = (failed, d)
toy_commit d (some n) = (affected 0, record d { committed = n; inner = none })

abbrev toy : Statement → Toy → Reply × Toy
toy begin_transaction d = toy_begin d d.inner
toy commit d = toy_commit d d.inner
toy rollback d = (affected 0, record d { inner = none })
toy (sql statement params) d = toy_sql d d.budget d.inner

abbrev is_open : Option ℕ → Bool
is_open none = false
is_open (some n) = true

toy_begin-open : (d : Toy) (o : Option ℕ) → d.inner ≡ o → is_open (toy_begin d o).1.inner ≡ true
toy_begin-open d none e = refl
toy_begin-open d (some n) e = cc e

toy_sql-open :
    (d : Toy) (left : ℕ) (o : Option ℕ)
    → d.inner ≡ o
    → is_open o ≡ true
    → is_open (toy_sql d left o).1.inner ≡ true
toy_sql-open d zero o e opened = cc (e, opened)
toy_sql-open d (suc left) none e opened = absurd (cc opened)
toy_sql-open d (suc left) (some n) e opened = refl

Inside-open : {d e : Toy} → Inside toy d e → is_open e.inner ≡ true
Inside-open {d} (begun opened) = toy_begin-open d d.inner refl
Inside-open (after {e} inside statement params) =
    toy_sql-open e e.budget e.inner refl (Inside-open inside)

toy_begin-view : (d : Toy) (o : Option ℕ) → (toy_begin d o).1.committed ≡ d.committed
toy_begin-view d none = refl
toy_begin-view d (some n) = refl

toy_sql-view :
    (d : Toy) (left : ℕ) (o : Option ℕ)
    → is_open o ≡ true
    → (toy_sql d left o).1.committed ≡ d.committed
toy_sql-view d zero o opened = refl
toy_sql-view d (suc left) none opened = absurd (cc opened)
toy_sql-view d (suc left) (some n) opened = refl

toy_commit-view :
    (d : Toy) (o : Option ℕ)
    → (toy_commit d o).0 ≡ failed
    → (toy_commit d o).1.committed ≡ d.committed
toy_commit-view d none e = refl
toy_commit-view d (some n) e = absurd (cc e)

toy-Isolation : Isolation toy (λ d. d.committed)
toy-Isolation = record {
  begin_keeps = λ d. toy_begin-view d d.inner;
  sql_keeps =
      λ {d} {e} inside statement params. toy_sql-view e e.budget e.inner (Inside-open inside);
  rollback_keeps = λ inside. refl;
  commit_keeps = λ {d} {e} inside h. toy_commit-view e e.inner h;
}

abbrev toy_writer : ℕ → Writer Toy
toy_writer budget = record {
  conn = record { committed = 0; inner = none; budget = budget };
  write_gen = some 0;
  maintenance_available = false;
  tenant = text "t1";
}

abbrev two_rows : List Row
two_rows =
    (some (text "u1") ∷ some (text "old") ∷ []) ∷ (some (text "u1") ∷ some (text "new") ∷ []) ∷ []

-- The fourth statement of the batch fails.
apply_cdc_batch-IsAtomic_example :
    IsAtomic toy
      (λ d. d.committed)
      (toy_writer 3)
      (apply_cdc_batch toy
        (text "crm")
        (text "users")
        (text "id" ∷ text "name" ∷ [])
        (text "id")
        two_rows
        (text "u2" ∷ [])
        ((pos 0, pos 41) ∷ [])
        (text "2026-01-01T00:00:00Z")
        (toy_writer 3))
apply_cdc_batch-IsAtomic_example =
    apply_cdc_batch-IsAtomic toy (λ d. d.committed) toy-Isolation (toy_writer 3) (text "crm")
      (text "users") (text "id" ∷ text "name" ∷ []) (text "id") two_rows (text "u2" ∷ [])
      ((pos 0, pos 41) ∷ []) (text "2026-01-01T00:00:00Z")

-- A database that counts its statements and takes all.
abbrev counter : Statement → ℕ → Reply × ℕ
counter s d = (affected 1, suc d)

abbrev counting : Writer ℕ
counting = record { conn = 0; write_gen = none; maintenance_available = false; tenant = text "t1" }

apply_cdc_batch_succeeds_example :
    (n : ℕ) × ((apply_cdc_batch counter
        (text "crm")
        (text "users")
        (text "id" ∷ text "name" ∷ [])
        (text "id")
        two_rows
        (text "u2" ∷ [])
        ((pos 0, pos 41) ∷ [])
        (text "2026-01-01T00:00:00Z")
        counting).0
      ≡ ok n)
apply_cdc_batch_succeeds_example =
    apply_cdc_batch_succeeds {run = counter} (record { takes = λ s d h. cc h }) counting
      (text "crm") (text "users") (text "id" ∷ text "name" ∷ []) (text "id") two_rows
      (text "u2" ∷ []) ((pos 0, pos 41) ∷ []) (text "2026-01-01T00:00:00Z")
      (record {
        some_column = λ e. absurd (cc e);
        columns_idents = (
          (unfold validate_ident in unfold text in refl),
          ((unfold validate_ident in unfold text in refl), tt),
        );
        system_ident = unfold validate_ident in unfold text in refl;
        entity_ident = unfold validate_ident in unfold text in refl;
      })
      (record {
        key_ident = unfold validate_ident in unfold text in refl;
        place = 0;
        found = unfold position in unfold text in unfold text_eq in refl;
      })

abbrev one_feature : FeatureRow
one_feature = record {
  user_id = text "u1";
  feature_name = text "spend.total";
  num_value = record { bits = 0 };
  as_of_ts = text "2026-01-01T00:00:00Z";
  producer_id = text "spend.daily";
}

write_features_and_refresh-IsAtomic_example :
    IsAtomic toy
      (λ d. d.committed)
      (toy_writer 20)
      (write_features_and_refresh toy (one_feature ∷ []) (toy_writer 20))
write_features_and_refresh-IsAtomic_example =
    write_features_and_refresh-IsAtomic toy (λ d. d.committed) toy-Isolation (toy_writer 20)
      one_feature []

dedup_by_key-last_example :
    rows_with 0 (text "u1") (dedup_by_key two_rows 0) ≡ only_last (rows_with 0 (text "u1") two_rows)
dedup_by_key-last_example = dedup_by_key-last two_rows 0 (text "u1")

abbrev three_rows : List Row
three_rows = (none ∷ some (text "nobody") ∷ []) ∷ two_rows

dedup_by_key-IsKeyedOf_example : All (IsKeyedOf 0 three_rows) (dedup_by_key three_rows 0)
dedup_by_key-IsKeyedOf_example = dedup_by_key-IsKeyedOf three_rows 0

insert_chunked-IsFitting_example :
    IsFitting
      (text "INSERT ")
      3
      (stamped (text "t1"))
      toy
      (toy_writer 3).conn
      (insert_chunked toy (text "INSERT ") 3 (stamped (text "t1")) two_rows (toy_writer 3))
insert_chunked-IsFitting_example =
    insert_chunked-IsFitting (text "INSERT ") 3 (stamped (text "t1")) toy (omega arith)
      (omega arith) two_rows (refl, (refl, tt)) (toy_writer 3)

ingest_raw-IsNamed_example :
    ((ingest_raw toy (text "crm") (text "users") (text "id; DROP" ∷ []) two_rows (toy_writer 3)).1
      ≡ toy_writer 3)
    ⊎ IsNamed (text "crm") (text "users") (text "id; DROP" ∷ [])
ingest_raw-IsNamed_example =
    ingest_raw-IsNamed toy (text "crm") (text "users") (text "id; DROP" ∷ []) two_rows
      (toy_writer 3)

apply_cdc_batch-IsKeyed_example :
    ((apply_cdc_batch toy
        (text "crm")
        (text "users")
        (text "id" ∷ [])
        (text "name")
        two_rows
        []
        []
        (text "2026-01-01T00:00:00Z")
        (toy_writer 3)).1
      ≡ toy_writer 3)
    ⊎ (IsNamed (text "crm") (text "users") (text "id" ∷ [])
        × IsKeyed (text "id" ∷ []) (text "name"))
apply_cdc_batch-IsKeyed_example =
    apply_cdc_batch-IsKeyed toy (text "crm") (text "users") (text "id" ∷ []) (text "name") two_rows
      [] [] (text "2026-01-01T00:00:00Z") (toy_writer 3)
