-- ===== src/Ingestion/Feed/Batches.antt =====
-- What one call of `next_batch` has read, and how much.
use mathlib.Core.List.{append-nil, append_assoc}
use consumer_engine.Prelude.{
  ℤ, ◌≡◌, refl, sym, ap, ◌∙◌, Bool, true, false, Option, none, some, List, [], ◌∷◌, ◌++◌, Text,
  if◌then◌else◌,
}
use consumer_engine.Query.Json.{Json}
use consumer_engine.Storage.Dedup.{Row}
use consumer_engine.Ingestion.Feed.{
  DebeziumMapper, Poll, message, poll_error, timed_out, Turn, int_eq, Collected, parsed,
  with_message, polled, collect,
}
use consumer_engine.Ingestion.Feed.Offsets.{offset_at, offset_at-put_offset}

-- The last of two positions.
abbrev pub or_before : Option ℤ → Option ℤ → Option ℤ
or_before none before = before
or_before (some o) before = some o

abbrev pub own_offset : ℤ → Poll → Option ℤ
own_offset p (message q o content) = if int_eq q p then some o else none
own_offset p poll_error = none
own_offset p timed_out = none

-- The last position of a partition among the messages that were read.
unfoldable pub last_offset : ℤ → List Turn → Option ℤ
last_offset p [] = none
last_offset p (t ∷ ts) = or_before (last_offset p ts) (own_offset p t.poll)

module _ (to_string : Json → Text) (m : DebeziumMapper) where
  abbrev pub own_upserts : Poll → List Row
  own_upserts (message p o content) = (parsed to_string m content p o).0
  own_upserts poll_error = []
  own_upserts timed_out = []

  abbrev pub own_deletes : Poll → List Text
  own_deletes (message p o content) = (parsed to_string m content p o).1
  own_deletes poll_error = []
  own_deletes timed_out = []

  unfoldable pub all_upserts : List Turn → List Row
  all_upserts [] = []
  all_upserts (t ∷ ts) = own_upserts t.poll ++ all_upserts ts

  unfoldable pub all_deletes : List Turn → List Text
  all_deletes [] = []
  all_deletes (t ∷ ts) = own_deletes t.poll ++ all_deletes ts

  -- The turns that were read come before those that are left, and what they held is what is there.
  pub record IsRead (turns : List Turn) (before : Collected) (r : Collected × List Turn)
      : Type 0 where
    pub read : List Turn
    pub splits : read ++ r.1 ≡ turns
    pub upserts_read : r.0.upserts ≡ before.upserts ++ all_upserts read
    pub deletes_read : r.0.deletes ≡ before.deletes ++ all_deletes read
    pub offsets_read :
        (p : ℤ)
        → offset_at p r.0.offsets ≡ or_before (last_offset p read) (offset_at p before.offsets)

  nothing-IsRead : (turns : List Turn) (c : Collected) → IsRead turns c (c, turns)
  unfolding all_upserts all_deletes last_offset
  nothing-IsRead turns c = record {
    read = [];
    splits = refl;
    upserts_read = sym (append-nil c.upserts);
    deletes_read = sym (append-nil c.deletes);
    offsets_read = λ p. refl;
  }

  offset_cases :
      (b : Bool) (later own before : Option ℤ) (o : ℤ)
      → own ≡ (if b then some o else none)
      → or_before later (if b then some o else before) ≡ or_before (or_before later own) before
  offset_cases true (some l) own before o e = refl
  offset_cases true none own before o e = ap (λ own. or_before own before) (sym e)
  offset_cases false (some l) own before o e = refl
  offset_cases false none own before o e = ap (λ own. or_before own before) (sym e)

  one-IsRead :
      (late : Bool) (poll : Poll) (later : List Turn) (c : Collected)
      → ((d : Collected) → IsRead later d (collect to_string m later d))
      → IsRead
          (record { is_late = late; poll = poll } ∷ later)
          c
          (polled to_string m (collect to_string m later) later poll c)
  unfolding all_upserts all_deletes last_offset
  one-IsRead late (message p o content) later c rest =
      let inner = rest (with_message to_string m p o content c) in
      record {
        read = record { is_late = late; poll = message p o content } ∷ inner.read;
        splits = ap (λ l. record { is_late = late; poll = message p o content } ∷ l) inner.splits;
        upserts_read = inner.upserts_read ∙ append_assoc c.upserts _ _;
        deletes_read = inner.deletes_read ∙ append_assoc c.deletes _ _;
        offsets_read = λ q.
            inner.offsets_read q
            ∙ ap (or_before (last_offset q inner.read)) (offset_at-put_offset p q o c.offsets)
            ∙ offset_cases (int_eq p q) (last_offset q inner.read)
                (own_offset q (message p o content)) (offset_at q c.offsets) o refl;
      }
  one-IsRead late poll_error later c rest = record {
    read = record { is_late = late; poll = poll_error } ∷ [];
    splits = refl;
    upserts_read = sym (append-nil c.upserts);
    deletes_read = sym (append-nil c.deletes);
    offsets_read = λ p. refl;
  }
  one-IsRead late timed_out later c rest = record {
    read = record { is_late = late; poll = timed_out } ∷ [];
    splits = refl;
    upserts_read = sym (append-nil c.upserts);
    deletes_read = sym (append-nil c.deletes);
    offsets_read = λ p. refl;
  }

  stopped-IsRead :
      (stop : Bool) (t : Turn) (later : List Turn) (c : Collected)
      → IsRead (t ∷ later) c (polled to_string m (collect to_string m later) later t.poll c)
      → IsRead (t ∷ later) c (
          if stop
          then (c, t ∷ later)
          else polled to_string m (collect to_string m later) later t.poll c)
  stopped-IsRead true t later c goes = nothing-IsRead (t ∷ later) c
  stopped-IsRead false t later c goes = goes

  -- The loop reads a prefix of the turns. What it has then is what it had and, in order, the
  -- upserts and deletes of the messages read, and for each partition the last position read.
  pub collect-IsRead :
      (turns : List Turn) (c : Collected) → IsRead turns c (collect to_string m turns c)
  unfolding collect
  collect-IsRead [] c = nothing-IsRead [] c
  collect-IsRead (t ∷ later) c =
      stopped-IsRead _ t later c (one-IsRead t.is_late t.poll later c (collect-IsRead later))
