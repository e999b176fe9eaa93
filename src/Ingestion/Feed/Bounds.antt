-- ===== src/Ingestion/Feed/Bounds.antt =====
-- How large a batch is, and how wide its rows are.
use consumer_engine.Prelude.{
  ℤ, suc, ◌+◌, ◌≤◌, ◌<◌, leb, ◌≡◌, refl, ap, Bool, true, false, ◌||◌, Option, none, some, List, [],
  ◌∷◌, Text, length, length-append, map, All, All-append, if◌then◌else◌, arith,
}
use consumer_engine.Query.Json.{Json}
use consumer_engine.Storage.Dedup.{Row}
use consumer_engine.Ingestion.Feed.{
  DebeziumEnvelope, envelope, DebeziumMapper, Content, tombstone, unparseable, change, Poll,
  message, poll_error, timed_out, Turn, Collected, max_batch_messages, innermost, is_upsert,
  is_delete, upsert_of, delete_of, key_text, field_of, changes, parsed, with_message, polled,
  collect, row_from_json, map_envelope,
}

length-map : {A B : Type 0} (f : A → B) (xs : List A) → length (map f xs) ≡ length xs
length-map f [] = refl
length-map f (x ∷ xs) = ap suc (length-map f xs)

module _ (to_string : Json → Text) (m : DebeziumMapper) where
  abbrev pub IsAligned : Row → Type 0
  IsAligned row = length row ≡ length m.columns

  -- At most 500 changes, and rows as wide as the columns.
  pub record IsFit (c : Collected) : Type 0 where
    pub changes : length c.upserts + length c.deletes ≤ max_batch_messages
    pub aligned : All IsAligned c.upserts

  abbrev IsChange : List Row × List Text → Type 0
  IsChange r = (length r.0 + length r.1 ≤ 1) × All IsAligned r.0

  row_from_json-IsAligned : (obj : Json) → IsAligned (row_from_json to_string m obj)
  unfolding row_from_json
  row_from_json-IsAligned obj = length-map _ m.columns

  upsert_of-IsChange : (row : Option Json) → IsChange (upsert_of to_string m row, [])
  upsert_of-IsChange none = (omega arith, tt)
  upsert_of-IsChange (some row) = (omega arith, (row_from_json-IsAligned row, tt))

  key_text-one : (v : Option Json) → length (key_text to_string m v) ≤ 1
  key_text-one none = omega arith
  key_text-one (some Json.null) = omega arith
  key_text-one (some (Json.boolean b)) = omega arith
  key_text-one (some (Json.number n)) = omega arith
  key_text-one (some (Json.string s)) = omega arith
  key_text-one (some (Json.array xs)) = omega arith
  key_text-one (some (Json.object ms)) = omega arith

  delete_of-IsChange : (row : Option Json) → IsChange ([], delete_of to_string m row)
  delete_of-IsChange none = (omega arith, tt)
  delete_of-IsChange (some row) = (omega (arith, key_text-one (field_of m.key row)), tt)

  pick-IsChange :
      (up down : Bool) (row_after row_before : Option Json)
      → IsChange (
          if up
          then (upsert_of to_string m row_after, [])
          else if down
          then ([], delete_of to_string m row_before)
          else ([], []))
  pick-IsChange true down row_after row_before = upsert_of-IsChange row_after
  pick-IsChange false true row_after row_before = delete_of-IsChange row_before
  pick-IsChange false false row_after row_before = (omega arith, tt)

  changes-IsChange : (env : DebeziumEnvelope) → IsChange (changes to_string m env)
  changes-IsChange (envelope op row_after row_before _) =
      pick-IsChange (is_upsert to_string m op) (is_delete to_string m op) row_after row_before

  parsed-IsChange : (content : Content) (p o : ℤ) → IsChange (parsed to_string m content p o)
  unfolding map_envelope
  parsed-IsChange tombstone p o = (omega arith, tt)
  parsed-IsChange unparseable p o = (omega arith, tt)
  parsed-IsChange (change env) p o = changes-IsChange (innermost env)

  with_message-IsFit :
      (p o : ℤ) (content : Content) (c : Collected)
      → length c.upserts + length c.deletes < max_batch_messages
      → IsFit c
      → IsFit (with_message to_string m p o content c)
  with_message-IsFit p o content c room fit =
      let one = parsed-IsChange content p o in
      record {
        changes = omega (
          arith,
          room,
          one.0,
          length-append c.upserts (parsed to_string m content p o).0,
          length-append c.deletes (parsed to_string m content p o).1,
        );
        aligned = All-append IsAligned c.upserts _ fit.aligned one.1;
      }

  polled-IsFit :
      (poll : Poll) (later : List Turn) (c : Collected)
      → ((d : Collected) → IsFit d → IsFit (collect to_string m later d).0)
      → length c.upserts + length c.deletes < max_batch_messages
      → IsFit c
      → IsFit (polled to_string m (collect to_string m later) later poll c).0
  polled-IsFit (message p o content) later c rest room fit =
      rest _ (with_message-IsFit p o content c room fit)
  polled-IsFit poll_error later c rest room fit = fit
  polled-IsFit timed_out later c rest room fit = fit

  stopped-IsFit :
      (full late : Bool) (t : Turn) (later : List Turn) (c : Collected)
      → leb max_batch_messages (length c.upserts + length c.deletes) ≡ full
      → IsFit c
      → ((d : Collected) → IsFit d → IsFit (collect to_string m later d).0)
      → IsFit
          (if full || late
            then (c, t ∷ later)
            else polled to_string m (collect to_string m later) later t.poll c).0
  stopped-IsFit true late t later c e fit rest = fit
  stopped-IsFit false true t later c e fit rest = fit
  stopped-IsFit false false t later c e fit rest =
      polled-IsFit t.poll later c rest (ground (arith, e)) fit

  -- A batch that begins with at most 500 changes and rows as wide as the columns, such as the
  -- empty one, ends so.
  pub collect-IsFit :
      (turns : List Turn) (c : Collected) → IsFit c → IsFit (collect to_string m turns c).0
  unfolding collect
  collect-IsFit [] c fit = fit
  collect-IsFit (t ∷ later) c fit =
      stopped-IsFit (leb max_batch_messages (length c.upserts + length c.deletes)) t.is_late t later
        c refl fit (collect-IsFit later)
