-- ===== src/Storage/Features.antt =====
-- The feature store and its wide views.
use consumer_engine.Prelude.{
  ℕ, Bool, true, false, Option, none, some, List, [], ◌∷◌, Text, text, text_eq, fmt, join, Result,
  ok, err, map_err, map,
}
use consumer_engine.Core.Ident.{validate_feature_name, split_once, split_feature_name}
use consumer_engine.Query.Json.{Json, Double, Value, text_value, double}
use consumer_engine.Query.Compiler.Types.{write_catalog_alias}
use consumer_engine.Query.Engine.Catalogue.{text_ltb, insert_name}
use consumer_engine.Storage.Machine.{
  StorageError, bad_ident, bad_feature_name, bad_producer_id, storage, Statement, Reply, Action,
  pure, lift, ◌>>=◌, ◌>>◌, with_tenant, execute_batch, query, in_transaction,
}
use consumer_engine.Storage.Chunks.{insert_chunked}
use consumer_engine.Storage.Tables.{check_ident}

-- `FeatureRow` of crates/core/src/feature.rs
pub record FeatureRow : Type 0 where
  pub user_id : Text
  pub feature_name : Text
  pub num_value : Double
  pub as_of_ts : Text
  pub producer_id : Text

abbrev pub feature_table_sql : Text
feature_table_sql = fmt (
    text "CREATE TABLE IF NOT EXISTS "
    ∷ write_catalog_alias
    ∷ text
        ".feature_store (user_id VARCHAR, feature_name VARCHAR, num_value DOUBLE, as_of_ts TIMESTAMPTZ, producer_id VARCHAR, tenant_id VARCHAR)"
    ∷ [])

abbrev pub feature_tenant_sql : Text
feature_tenant_sql = fmt (
    text "ALTER TABLE "
    ∷ write_catalog_alias
    ∷ text ".feature_store ADD COLUMN IF NOT EXISTS tenant_id VARCHAR"
    ∷ [])

abbrev pub insert_features_sql : Text
insert_features_sql = fmt (
    text "INSERT INTO "
    ∷ write_catalog_alias
    ∷ text
        ".feature_store (user_id, feature_name, num_value, as_of_ts, producer_id, tenant_id) VALUES "
    ∷ [])

abbrev pub feature_values : Text → FeatureRow → List Value
feature_values tenant r =
    text_value r.user_id
    ∷ text_value r.feature_name
    ∷ double r.num_value
    ∷ text_value r.as_of_ts
    ∷ text_value r.producer_id
    ∷ text_value tenant
    ∷ []

abbrev pub names_sql : Text
names_sql = fmt (
    text "SELECT DISTINCT feature_name FROM "
    ∷ write_catalog_alias
    ∷ text ".feature_store WHERE starts_with(feature_name, ?)"
    ∷ [])

abbrev pub pivot_column : Text → Text → Text
pivot_column family short = fmt (
    text "arg_max(num_value, as_of_ts) FILTER (WHERE feature_name = '"
    ∷ family
    ∷ text "."
    ∷ short
    ∷ text "') AS "
    ∷ short
    ∷ [])

abbrev pub view_sql : Text → List Text → Text
view_sql family shorts = fmt (
    text "CREATE OR REPLACE VIEW "
    ∷ write_catalog_alias
    ∷ text ".feature_wide_"
    ∷ family
    ∷ text " AS SELECT "
    ∷ join (text ", ") (text "user_id" ∷ text "tenant_id" ∷ map (pivot_column family) shorts)
    ∷ text " FROM "
    ∷ write_catalog_alias
    ∷ text ".feature_store WHERE starts_with(feature_name, '"
    ∷ family
    ∷ text ".') GROUP BY user_id, tenant_id"
    ∷ [])

-- `families`: for each family its short names, both in the order of `String`.
pub record Family : Type 0 where
  pub name : Text
  pub shorts : List Text

abbrev pub place_family :
    Bool → Bool → Text → Text → Family → List Family → List Family → List Family
place_family true before family short f fs later =
    record { name = f.name; shorts = insert_name short f.shorts } ∷ fs
place_family false true family short f fs later =
    record { name = family; shorts = short ∷ [] } ∷ f ∷ fs
place_family false false family short f fs later = f ∷ later

-- `families.entry(family).or_default().insert(short)`
unfoldable pub add_short : Text → Text → List Family → List Family
add_short family short [] = record { name = family; shorts = short ∷ [] } ∷ []
add_short family short (f ∷ fs) =
    place_family (text_eq family f.name) (text_ltb family f.name) family short f fs
      (add_short family short fs)

abbrev pub add_split :
    Result StorageError (Text × Text) → List Family → Result StorageError (List Family)
add_split (err e) fs = err e
add_split (ok (family, short)) fs = ok (add_short family short fs)

abbrev pub and_next :
    (List Family → Result StorageError (List Family))
    → Result StorageError (List Family)
    → Result StorageError (List Family)
and_next next (err e) = err e
and_next next (ok fs) = next fs

unfoldable pub families_of : List FeatureRow → List Family → Result StorageError (List Family)
unfolding add_short
families_of [] fs = ok fs
families_of (r ∷ rs) fs =
    and_next (families_of rs) (add_split (map_err bad_ident (split_feature_name r.feature_name)) fs)

-- `extend` of a `BTreeSet`.
unfoldable pub add_names : List Text → List Text → List Text
add_names [] set = set
add_names (n ∷ ns) set = add_names ns (insert_name n set)

abbrev pub short_of : Option (Text × Text) → List Text → List Text
short_of none set = set
short_of (some (family, short)) set = insert_name short set

-- The rows of names that are texts; any other cell is an error of `r.get`.
abbrev pub add_stored :
    (List Text → Result StorageError (List Text))
    → List Json
    → List Text
    → Result StorageError (List Text)
add_stored next (Json.string name ∷ cells) set = next (short_of (split_once b'.' name) set)
add_stored next _ set = err storage

unfoldable pub stored_shorts : List (List Json) → List Text → Result StorageError (List Text)
stored_shorts [] set = ok set
stored_shorts (r ∷ rs) set = add_stored (stored_shorts rs) r set

module _ {Db : Type 0} where
  unfoldable pub check_feature_row : FeatureRow → Action Db (Unit {0})
  check_feature_row r =
      lift (map_err bad_feature_name (validate_feature_name r.feature_name))
      >> lift (map_err bad_producer_id (validate_feature_name r.producer_id))

  unfoldable pub check_feature_rows : List FeatureRow → Action Db (Unit {0})
  unfolding check_feature_row
  check_feature_rows [] = pure tt
  check_feature_rows (r ∷ rs) = check_feature_row r >> check_feature_rows rs

  -- The loop over the short names only checks them.
  unfoldable pub check_shorts : List Text → Action Db (Unit {0})
  unfolding check_ident
  check_shorts [] = pure tt
  check_shorts (s ∷ ss) = check_ident s >> check_shorts ss

module _ {Db : Type 0} (run : Statement → Db → Reply × Db) where
  unfoldable pub ensure_feature_store_table : Action Db (Unit {0})
  ensure_feature_store_table =
      execute_batch run feature_table_sql >> execute_batch run feature_tenant_sql

  unfoldable pub write_feature_rows : List FeatureRow → Action Db ℕ
  unfolding check_feature_rows ensure_feature_store_table
  write_feature_rows [] = pure 0
  write_feature_rows (r ∷ rs) =
      check_feature_rows (r ∷ rs)
      >> ensure_feature_store_table
      >> with_tenant
          λ tenant. insert_chunked run insert_features_sql 6 (feature_values tenant) (r ∷ rs)

  unfoldable pub feature_short_names : Text → Action Db (List Text)
  unfolding stored_shorts check_ident
  feature_short_names family =
      check_ident family
      >> ensure_feature_store_table
      >> query run names_sql (text_value (fmt (family ∷ text "." ∷ [])) ∷ [])
      >>= λ rows. lift (stored_shorts rows [])

  abbrev pub replace_view : Text → List Text → Action Db (Unit {0})
  replace_view family [] = pure tt
  replace_view family (s ∷ ss) =
      ensure_feature_store_table
      >> check_shorts (s ∷ ss)
      >> execute_batch run (view_sql family (s ∷ ss))

  unfoldable pub refresh_feature_wide_view : Text → List Text → Action Db (Unit {0})
  unfolding check_ident check_shorts
  refresh_feature_wide_view family shorts = check_ident family >> replace_view family shorts

  unfoldable pub refresh_families : List Family → Action Db (Unit {0})
  unfolding feature_short_names refresh_feature_wide_view add_names
  refresh_families [] = pure tt
  refresh_families (f ∷ fs) = feature_short_names f.name >>= λ stored.
      refresh_feature_wide_view f.name (add_names f.shorts stored) >> refresh_families fs

  unfoldable pub features_body : List FeatureRow → Action Db ℕ
  unfolding write_feature_rows families_of refresh_families
  features_body rows = write_feature_rows rows >>= λ n.
      lift (families_of rows []) >>= λ families. refresh_families families >> pure n

  unfoldable pub write_features_and_refresh : List FeatureRow → Action Db ℕ
  unfolding features_body in_transaction
  write_features_and_refresh [] = pure 0
  write_features_and_refresh (r ∷ rs) = in_transaction run (features_body (r ∷ rs))
