-- ===== src/Ingestion/Recorder.antt =====
-- An observer of the writer: the batches of raw rows that it was handed, each under the tenant that
-- was set. `recorded` puts a log beside any writer.
use consumer_engine.Prelude.{
  ℕ, ◌≡◌, refl, sym, ap, ◌∙◌, Bool, true, false, List, [], ◌∷◌, ◌++◌, Text, if◌then◌else◌, arith,
}
use mathlib.Core.List.{append-nil, append_assoc}
use consumer_engine.Query.Json.{Value}
use consumer_engine.Storage.Dedup.{Row}
use consumer_engine.Storage.Features.{FeatureRow}
use consumer_engine.Storage.Appends.{SuppressionRow, CatalogRow, SnapshotSpec}
use consumer_engine.Ingestion.Interface.{Op, SourceBatch, WriterOps}
use consumer_engine.Ingestion.Batches.{Key, key_eq}

pub record Handed : Type 0 where
  pub key : Key
  pub rows : List Row

-- The rows of one tenant, system and entity, in order.
unfoldable pub rows_of : Key → List Handed → List Row
rows_of k [] = []
rows_of k (h ∷ hs) = let later = rows_of k hs in if key_eq h.key k then h.rows ++ later else later

pub rows_of-append :
    (k : Key) (hs : List Handed) (h : Handed)
    → rows_of k (hs ++ h ∷ []) ≡ rows_of k hs ++ (if key_eq h.key k then h.rows else [])
unfolding rows_of
rows_of-append k [] h = ground (arith, append-nil h.rows)
rows_of-append k (g ∷ hs) h =
    ap (λ l. if key_eq g.key k then g.rows ++ l else l) (rows_of-append k hs h)
    ∙ pull (key_eq g.key k) g.rows (rows_of k hs) _
  where
    pull :
        (b : Bool) (x y z : List Row)
        → (if b then x ++ (y ++ z) else y ++ z) ≡ (if b then x ++ y else y) ++ z
    pull true x y z = sym (append_assoc x y z)
    pull false x y z = refl

-- Only `ingest_raw` hands rows over, under the tenant of the last `set_tenant`.
pub record Recorder {W : Type 0} (ops : WriterOps W) : Type 0 where
  pub tenant_of : W → Text
  pub seen : W → List Handed
  pub tenant_set : (t : Text) (w : W) → tenant_of (ops.set_tenant t w) ≡ t
  pub seen_set : (t : Text) (w : W) → seen (ops.set_tenant t w) ≡ seen w
  pub seen_ingest :
      (s e : Text) (columns : List Text) (rows : List Row) (w : W)
      → seen (ops.ingest_raw s e columns rows w).1
        ≡ seen w
          ++ record { key = record { tenant = tenant_of w; system = s; entity = e }; rows = rows }
            ∷ []
  pub seen_upsert :
      (s e : Text) (columns : List Text) (key : Text) (rows : List Row) (w : W)
      → seen (ops.upsert_raw s e columns key rows w).1 ≡ seen w
  pub seen_delete :
      (s e key : Text) (keys : List Text) (w : W) → seen (ops.delete_raw s e key keys w).1 ≡ seen w
  pub seen_features : (rows : List FeatureRow) (w : W) → seen (ops.write_features rows w).1 ≡ seen w
  pub seen_catalog : (rows : List CatalogRow) (w : W) → seen (ops.write_catalog rows w).1 ≡ seen w
  pub seen_suppression :
      (rows : List SuppressionRow) (w : W) → seen (ops.write_suppression rows w).1 ≡ seen w
  pub seen_materialize :
      (subquery : Text) (params : List Value) (key : Text) (spec : SnapshotSpec) (w : W)
      → seen (ops.materialize_snapshot subquery params key spec w).1 ≡ seen w
  pub seen_export : (id dest : Text) (w : W) → seen (ops.export_parquet id dest w).1 ≡ seen w
  pub seen_cdc :
      (batch : SourceBatch) (now : Text) (w : W) → seen (ops.apply_cdc_batch batch now w).1 ≡ seen w
  pub seen_offsets : (source : Text) (w : W) → seen (ops.read_cdc_offsets source w).1 ≡ seen w
  pub seen_compact : (s e : Text) (w : W) → seen (ops.compact s e w).1 ≡ seen w
  pub seen_expire : (days : ℕ) (w : W) → seen (ops.expire_snapshots days w).1 ≡ seen w
  pub seen_orphans : (days : ℕ) (w : W) → seen (ops.delete_orphaned_files days w).1 ≡ seen w

-- A writer, its tenant, and the log.
pub record Logged (W : Type 0) : Type 0 where
  pub inner : W
  pub tenant : Text
  pub log : List Handed

module _ {W : Type 0} where
  abbrev inside : {A : Type 0} → Op W A → Op (Logged W) A
  inside op w = let (r, inner) = op w.inner in (r, record w { inner = inner })

  abbrev pub recorded : WriterOps W → WriterOps (Logged W)
  recorded ops = record {
    set_tenant = λ t w. record w { inner = ops.set_tenant t w.inner; tenant = t };
    ingest_raw = λ s e columns rows w.
        let (r, inner) = ops.ingest_raw s e columns rows w.inner in
        (
          r,
          record w {
            inner = inner;
            log =
                w.log
                ++ record {
                  key = record { tenant = w.tenant; system = s; entity = e };
                  rows = rows;
                }
                  ∷ [];
          },
        );
    upsert_raw = λ s e columns key rows. inside (ops.upsert_raw s e columns key rows);
    delete_raw = λ s e key keys. inside (ops.delete_raw s e key keys);
    write_features = λ rows. inside (ops.write_features rows);
    write_catalog = λ rows. inside (ops.write_catalog rows);
    write_suppression = λ rows. inside (ops.write_suppression rows);
    materialize_snapshot =
        λ subquery params key spec. inside (ops.materialize_snapshot subquery params key spec);
    export_parquet = λ id dest. inside (ops.export_parquet id dest);
    apply_cdc_batch = λ batch now. inside (ops.apply_cdc_batch batch now);
    read_cdc_offsets = λ source. inside (ops.read_cdc_offsets source);
    compact = λ s e. inside (ops.compact s e);
    expire_snapshots = λ days. inside (ops.expire_snapshots days);
    delete_orphaned_files = λ days. inside (ops.delete_orphaned_files days);
  }

  abbrev pub recorded_recorder : (ops : WriterOps W) → Recorder (recorded ops)
  recorded_recorder ops = record {
    tenant_of = λ w. w.tenant;
    seen = λ w. w.log;
    tenant_set = λ t w. refl;
    seen_set = λ t w. refl;
    seen_ingest = λ s e columns rows w. refl;
    seen_upsert = λ s e columns key rows w. refl;
    seen_delete = λ s e key keys w. refl;
    seen_features = λ rows w. refl;
    seen_catalog = λ rows w. refl;
    seen_suppression = λ rows w. refl;
    seen_materialize = λ subquery params key spec w. refl;
    seen_export = λ id dest w. refl;
    seen_cdc = λ batch now w. refl;
    seen_offsets = λ source w. refl;
    seen_compact = λ s e w. refl;
    seen_expire = λ days w. refl;
    seen_orphans = λ days w. refl;
  }
