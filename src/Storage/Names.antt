-- ===== src/Storage/Names.antt =====
-- The names that reach a statement's text have passed the allowlist.
use consumer_engine.Prelude.{
  ℤ, ℕ, ◌≡◌, ◌≢◌, refl, ap, ◌∙◌, ◌⊎◌, inl, inr, Option, none, some, List, [], ◌∷◌, Text, All,
  Result, ok, err, map_err,
}
use consumer_engine.Core.Ident.{IdentError, validate_ident}
use consumer_engine.Storage.Machine.{
  StorageError, bad_ident, Statement, Reply, Writer, Action, then_with, ◌>>=◌, ◌>>◌,
}
use consumer_engine.Storage.Dedup.{Row}
use consumer_engine.Storage.Tables.{
  check_ident, check_idents, check_columns, raw_table_name, position, found_key, ingest_raw,
}
use consumer_engine.Storage.Merges.{upsert_raw, apply_cdc_batch}
use consumer_engine.Storage.Atomic.Checks.{
  IsSilent, IsSilent-then, check_ident-IsSilent, check_columns-IsSilent, found_key-IsSilent,
  raw_table_name-IsSilent,
}

abbrev pub IsIdent : Text → Type 0
IsIdent name = validate_ident name ≡ ok tt

pub record IsNamed (system entity : Text) (columns : List Text) : Type 0 where
  pub some_column : columns ≢ []
  pub columns_idents : All IsIdent columns
  pub system_ident : IsIdent system
  pub entity_ident : IsIdent entity

-- A key that is an identifier and one of the columns.
pub record IsKeyed (columns : List Text) (key : Text) : Type 0 where
  pub key_ident : IsIdent key
  pub place : ℕ
  pub found : position key columns ≡ some place

ident_ok :
    (r : Result IdentError (Unit {0})) (u : Unit {0})
    → Path (Result StorageError (Unit {0})) (map_err bad_ident r) (ok u)
    → r ≡ ok tt
ident_ok (err e) u h = absurd (cc h)
ident_ok (ok v) u h = refl

module _ {Db : Type 0} where
  check_ident-ok :
      (name : Text) (w : Writer Db) (u : Unit {0}) → (check_ident name w).0 ≡ ok u → IsIdent name
  unfolding check_ident
  check_ident-ok name w u h = ident_ok (validate_ident name) u h

  -- A chain that succeeds has passed its first part.
  then-ok :
      {A B : Type 0} (first : Action Db A) (next : A → Action Db B) (w : Writer Db) (b : B)
      → ((first >>= next) w).0 ≡ ok b
      → (a : A) × ((first w).0 ≡ ok a) × ((next a (first w).1).0 ≡ ok b)
  then-ok {A} {B} first next w b h = result_cases (first w) h
    where
      result_cases :
          (r : Result StorageError A × Writer Db)
          → (then_with next r).0 ≡ ok b
          → (a : A) × (r.0 ≡ ok a) × ((next a r.1).0 ≡ ok b)
      result_cases (ok a, w) h = (a, refl, h)
      result_cases (err e, w) h = absurd (cc h)

  check_idents-ok :
      (names : List Text) (w : Writer Db) (u : Unit {0})
      → (check_idents names w).0 ≡ ok u
      → All IsIdent names
  unfolding check_idents
  check_idents-ok [] w u h = tt
  check_idents-ok (c ∷ cs) w u h =
      let (v, head, rest) = then-ok (check_ident c) (λ _. check_idents cs) w u h in
      (check_ident-ok c w v head, check_idents-ok cs _ u rest)

  check_columns-ok :
      (columns : List Text) (w : Writer Db) (u : Unit {0})
      → (check_columns columns w).0 ≡ ok u
      → (columns ≢ []) × All IsIdent columns
  unfolding check_columns
  check_columns-ok [] w u h = absurd (cc h)
  check_columns-ok (c ∷ cs) w u h = ((λ e. absurd (cc e)), check_idents-ok (c ∷ cs) w u h)

  raw_table_name-ok :
      (system entity : Text) (w : Writer Db) (table : Text)
      → (raw_table_name system entity w).0 ≡ ok table
      → IsIdent system × IsIdent entity
  unfolding raw_table_name
  raw_table_name-ok system entity w table h =
      let (u, both, rest) = then-ok (check_ident system >> check_ident entity) _ w table h in
      let (v, first, second) = then-ok (check_ident system) (λ _. check_ident entity) w u both in
      (check_ident-ok system w v first, check_ident-ok entity (check_ident system w).1 u second)

  -- After silent checks, either nothing has changed or they have succeeded.
  silent_cases :
      {A B : Type 0} (check : Action Db A) (next : A → Action Db B) (w : Writer Db)
      → IsSilent check
      → (((check >>= next) w).1 ≡ w) ⊎ ((a : A) × ((check w).0 ≡ ok a))
  silent_cases {A} {B} check next w silent = result_cases (check w) (silent.same w)
    where
      result_cases :
          (r : Result StorageError A × Writer Db)
          → r.1 ≡ w
          → ((then_with next r).1 ≡ w) ⊎ ((a : A) × (r.0 ≡ ok a))
      result_cases (ok a, v) e = inr (a, refl)
      result_cases (err x, v) e = inl e

  abbrev table_checks : Text → Text → List Text → Action Db Text
  table_checks system entity columns = check_columns columns >> raw_table_name system entity

  table_checks-ok :
      (system entity : Text) (columns : List Text) (w : Writer Db) (table : Text)
      → (table_checks system entity columns w).0 ≡ ok table
      → IsNamed system entity columns
  table_checks-ok system entity columns w table h =
      let (u, cols, names) = then-ok (check_columns columns) _ w table h in
      let (some_column, idents) = check_columns-ok columns w u cols in
      let (s, e) = raw_table_name-ok system entity _ table names in
      record {
        some_column = some_column;
        columns_idents = idents;
        system_ident = s;
        entity_ident = e;
      }

  -- An ingest leaves the writer and the database as they were, or its system, its entity and its
  -- columns, of which there is one or more, all are identifiers of the allowlist.
  pub ingest_raw-IsNamed :
      (run : Statement → Db → Reply × Db) (system entity : Text) (columns : List Text)
      (rows : List Row) (w : Writer Db)
      → ((ingest_raw run system entity columns rows w).1 ≡ w) ⊎ IsNamed system entity columns
  unfolding ingest_raw
  ingest_raw-IsNamed run system entity columns rows w =
      elim (silent_cases (table_checks system entity columns) _ w (
        IsSilent-then (check_columns-IsSilent columns)
          λ _. raw_table_name-IsSilent system entity)) [
            | inl same ↦ inl same
            | inr passed ↦ inr (table_checks-ok system entity columns w passed.0 passed.1)
          ]

  found_key-ok : (o : Option ℕ) (w : Writer Db) (i : ℕ) → (found_key o w).0 ≡ ok i → o ≡ some i
  found_key-ok none w i h = absurd (cc h)
  found_key-ok (some j) w i h = cc h

  abbrev key_checks : List Text → Text → Action Db ℕ
  key_checks columns key =
      check_columns columns >> check_ident key >> found_key (position key columns)

  key_checks-IsSilent : (columns : List Text) (key : Text) → IsSilent (key_checks columns key)
  key_checks-IsSilent columns key =
      IsSilent-then (IsSilent-then (check_columns-IsSilent columns) λ _. check_ident-IsSilent key)
        λ _. found_key-IsSilent _

  -- Checks of the columns and the key, then of the table's name, then the rest.
  IsKeyed-cases :
      {B : Type 0} (system entity key : Text) (columns : List Text) (next : ℕ → Text → Action Db B)
      (w : Writer Db)
      → (((key_checks columns key >>= λ i. raw_table_name system entity >>= next i) w).1 ≡ w)
        ⊎ (IsNamed system entity columns × IsKeyed columns key)
  IsKeyed-cases {B} system entity key columns next w =
      outer_cases (key_checks columns key w) refl ((key_checks-IsSilent columns key).same w)
    where
      inner : (i : ℕ) → Action Db B
      inner i = raw_table_name system entity >>= next i

      keyed :
          (i : ℕ)
          → (key_checks columns key w).0 ≡ ok i
          → ((columns ≢ []) × All IsIdent columns) × IsKeyed columns key
      keyed i h =
          let (u, both, at) =
            then-ok (check_columns columns >> check_ident key)
              (λ _. found_key (position key columns)) w i h in
          let (v, cols, ident) = then-ok (check_columns columns) (λ _. check_ident key) w u both in
          (
            check_columns-ok columns w v cols,
            record {
              key_ident = check_ident-ok key (check_columns columns w).1 u ident;
              place = i;
              found = found_key-ok (position key columns) _ i at;
            },
          )

      named :
          (i : ℕ)
          → (key_checks columns key w).0 ≡ ok i
          → (v : Writer Db) → v ≡ w
          → ((inner i v).1 ≡ w) ⊎ (IsNamed system entity columns × IsKeyed columns key)
      named i h v e =
          elim (silent_cases (raw_table_name system entity) (next i) v
            (raw_table_name-IsSilent system entity)) [
              | inl same ↦ inl (same ∙ e)
              | inr passed ↦
                  let (s, n) = raw_table_name-ok system entity v passed.0 passed.1 in
                  let (cols, k) = keyed i h in
                  inr (
                    record {
                      some_column = cols.0;
                      columns_idents = cols.1;
                      system_ident = s;
                      entity_ident = n;
                    },
                    k,
                  )
            ]

      outer_cases :
          (r : Result StorageError ℕ × Writer Db)
          → key_checks columns key w ≡ r
          → r.1 ≡ w
          → ((then_with inner r).1 ≡ w) ⊎ (IsNamed system entity columns × IsKeyed columns key)
      outer_cases (ok i, v) e same = named i (ap (λ r. r.0) e) v same
      outer_cases (err x, v) e same = inl same

  -- A change batch leaves the writer and the database as they were, or its system, its entity, its
  -- columns and its key are identifiers of the allowlist, and the key is one of the columns.
  pub apply_cdc_batch-IsKeyed :
      (run : Statement → Db → Reply × Db) (system entity : Text) (columns : List Text) (key : Text)
      (upserts : List Row) (deletes : List Text) (offsets : List (ℤ × ℤ)) (now : Text)
      (w : Writer Db)
      → ((apply_cdc_batch run system entity columns key upserts deletes offsets now w).1 ≡ w)
        ⊎ (IsNamed system entity columns × IsKeyed columns key)
  unfolding apply_cdc_batch
  apply_cdc_batch-IsKeyed run system entity columns key upserts deletes offsets now w =
      IsKeyed-cases system entity key columns _ w

  -- An upsert leaves the writer and the database as they were, or its system, its entity, its
  -- columns and its key are identifiers of the allowlist, and the key is one of the columns.
  pub upsert_raw-IsKeyed :
      (run : Statement → Db → Reply × Db) (system entity : Text) (columns : List Text) (key : Text)
      (rows : List Row) (w : Writer Db)
      → ((upsert_raw run system entity columns key rows w).1 ≡ w)
        ⊎ (IsNamed system entity columns × IsKeyed columns key)
  unfolding upsert_raw
  upsert_raw-IsKeyed run system entity columns key rows w =
      IsKeyed-cases system entity key columns _ w
