-- ===== src/Storage/Dedup/Laws.antt =====
-- `dedup_by_key` against an independent description: of the rows of each key, the last.
use mathlib.Core.List.{append-nil, append_assoc}
use consumer_engine.Prelude.{
  ℕ, ◌≡◌, refl, sym, ap, ◌∙◌, subst, Bool, true, false, Option, none, some, List, [], ◌∷◌, ◌++◌,
  Text, text_eq, text_eq_iff, length, lookup, lookup-insert, if◌then◌else◌,
}
use consumer_engine.Storage.Dedup.{
  Row, cell_at, replace_at, Kept, keep_seen, keep_row, keep_rows, dedup_by_key,
}
use consumer_engine.Storage.Dedup.Positions.{
  first_at, first_at-IsReplaced, first_at-append, first_at-none, is_key, only_last,
  only_last-append, or_then, replace_at-IsReplaced, rows_with, rows_with-IsReplaced,
  rows_with-append, rows_with-other, tail_of, tail_of-only_last,
}

-- What holds after the rows `past`.
record Agrees (i : ℕ) (past : List Row) (st : Kept) : Type 0 where
  seen_first : (k : Text) → lookup k st.seen ≡ first_at i k st.deduped
  kept_last : (k : Text) → rows_with i k st.deduped ≡ only_last (rows_with i k past)

rows_with-append_at :
    (i : ℕ) (k : Text) (past : List Row) (row : Row) (c : Option Text)
    → cell_at i row ≡ c
    → rows_with i k (past ++ row ∷ [])
      ≡ (if is_key k c then rows_with i k past ++ row ∷ [] else rows_with i k past)
rows_with-append_at i k past row c e =
    rows_with-append i k past row
    ∙ ap (λ c. if is_key k c then rows_with i k past ++ row ∷ [] else rows_with i k past) e

skipped :
    (i : ℕ) (past : List Row) (row : Row) (st : Kept)
    → cell_at i row ≡ none
    → Agrees i past st
    → Agrees i (past ++ row ∷ []) st
skipped i past row st e agrees = record {
  seen_first = agrees.seen_first;
  kept_last =
      λ k. agrees.kept_last k ∙ ap only_last (sym (rows_with-append_at i k past row none e));
}

-- The rows of a key, with the row of key `c` after the others or in place of the first of `c`.
last_cases :
    (i : ℕ) (c k : Text) (past : List Row) (row : Row) (d e : List Row) (b : Bool)
    → cell_at i row ≡ some c
    → text_eq c k ≡ b
    → rows_with i k d ≡ only_last (rows_with i k past)
    → (text_eq c k ≡ false → rows_with i k e ≡ rows_with i k d)
    → (text_eq c k ≡ true → rows_with i k e ≡ row ∷ [])
    → rows_with i k e ≡ only_last (rows_with i k (past ++ row ∷ []))
last_cases i c k past row d e true key eb h away near =
    near eb
    ∙ sym (only_last-append (rows_with i k past) row)
    ∙ ap only_last (
        sym (
          rows_with-append_at i k past row (some c) key
          ∙ ap (λ b. if b then rows_with i k past ++ row ∷ [] else rows_with i k past) eb))
last_cases i c k past row d e false key eb h away near =
    away eb
    ∙ h
    ∙ ap only_last (
        sym (
          rows_with-append_at i k past row (some c) key
          ∙ ap (λ b. if b then rows_with i k past ++ row ∷ [] else rows_with i k past) eb))

replaced :
    (i : ℕ) (c : Text) (past : List Row) (row : Row) (st : Kept) (j : ℕ)
    → cell_at i row ≡ some c
    → lookup c st.seen ≡ some j
    → Agrees i past st
    → Agrees i (past ++ row ∷ []) (keep_seen c row st (some j))
replaced i c past row st j key found agrees =
    let swap = replace_at-IsReplaced i c row st.deduped j (sym (agrees.seen_first c) ∙ found) in
    record {
      seen_first = λ k. agrees.seen_first k ∙ sym (first_at-IsReplaced k key swap);
      kept_last = λ k.
          last_cases i c k past row st.deduped _ (text_eq c k) key refl (agrees.kept_last k)
            (λ differs. rows_with-other k key differs swap)
            (λ same.
              subst (λ k. rows_with i k (replace_at j row st.deduped) ≡ row ∷ [])
                ((text_eq_iff c k).0 same)
                (rows_with-IsReplaced key swap
                  ∙ ap (λ l. row ∷ tail_of l) (agrees.kept_last c)
                  ∙ ap (λ l. row ∷ l) (tail_of-only_last (rows_with i c past))));
    }

or_none : (m : Option ℕ) → m ≡ or_then m none
or_none none = refl
or_none (some j) = refl

appended :
    (i : ℕ) (c : Text) (past : List Row) (row : Row) (st : Kept)
    → cell_at i row ≡ some c
    → lookup c st.seen ≡ none
    → Agrees i past st
    → Agrees i (past ++ row ∷ []) (keep_seen c row st none)
appended i c past row st key missing agrees = record {
  seen_first = λ k.
      lookup-insert c k (length st.deduped) st.seen
      ∙ first_cases k (text_eq c k) refl
      ∙ sym (
          first_at-append i k st.deduped row
          ∙ ap
              (λ cell.
                or_then (first_at i k st.deduped)
                  (if is_key k cell then some (length st.deduped) else none))
              key);
  kept_last = λ k.
      last_cases i c k past row st.deduped _ (text_eq c k) key refl (agrees.kept_last k)
        (λ differs.
          rows_with-append_at i k st.deduped row (some c) key
          ∙ ap (λ b. if b then rows_with i k st.deduped ++ row ∷ [] else rows_with i k st.deduped)
              differs)
        (λ same.
          rows_with-append_at i k st.deduped row (some c) key
          ∙ ap (λ b. if b then rows_with i k st.deduped ++ row ∷ [] else rows_with i k st.deduped)
              same
          ∙ ap (λ l. l ++ row ∷ []) (first_at-none i k st.deduped (fresh k same)));
}
  where
    fresh : (k : Text) → text_eq c k ≡ true → first_at i k st.deduped ≡ none
    fresh k same =
        subst (λ k. first_at i k st.deduped ≡ none) ((text_eq_iff c k).0 same)
          (sym (agrees.seen_first c) ∙ missing)

    first_cases :
        (k : Text) (b : Bool)
        → text_eq c k ≡ b
        → (if b then some (length st.deduped) else lookup k st.seen)
          ≡ or_then (first_at i k st.deduped) (if b then some (length st.deduped) else none)
    first_cases k true eb = ap (λ m. or_then m (some (length st.deduped))) (sym (fresh k eb))
    first_cases k false eb = agrees.seen_first k ∙ or_none (first_at i k st.deduped)

keep_row-Agrees :
    (i : ℕ) (past : List Row) (row : Row) (st : Kept) (cell : Option Text)
    → cell_at i row ≡ cell
    → Agrees i past st
    → Agrees i (past ++ row ∷ []) (keep_row row cell st)
keep_row-Agrees i past row st none e agrees = skipped i past row st e agrees
keep_row-Agrees i past row st (some c) e agrees = seen_cases (lookup c st.seen) refl
  where
    seen_cases :
        (found : Option ℕ)
        → lookup c st.seen ≡ found
        → Agrees i (past ++ row ∷ []) (keep_seen c row st found)
    seen_cases none eq = appended i c past row st e eq agrees
    seen_cases (some j) eq = replaced i c past row st j e eq agrees

keep_rows-Agrees :
    (i : ℕ) (past rows : List Row) (st : Kept)
    → Agrees i past st
    → Agrees i (past ++ rows) (keep_rows i rows st)
unfolding keep_rows
keep_rows-Agrees i past [] st agrees = subst (λ l. Agrees i l st) (sym (append-nil past)) agrees
keep_rows-Agrees i past (row ∷ rows) st agrees =
    subst (λ l. Agrees i l (keep_rows i (row ∷ rows) st)) (append_assoc past (row ∷ []) rows)
      (keep_rows-Agrees i (past ++ row ∷ []) rows _
        (keep_row-Agrees i past row st (cell_at i row) refl agrees))

-- Of the rows that have a key, deduplication keeps the last one and no other.
pub dedup_by_key-last :
    (rows : List Row) (key_idx : ℕ) (key : Text)
    → rows_with key_idx key (dedup_by_key rows key_idx) ≡ only_last (rows_with key_idx key rows)
unfolding dedup_by_key lookup first_at rows_with only_last
dedup_by_key-last rows key_idx key =
    (keep_rows-Agrees key_idx [] rows _
        (record { seen_first = λ k. refl; kept_last = λ k. refl })).kept_last
      key
