-- ===== src/Storage/Dedup/Positions.antt =====
-- The rows of a key, and where the first of them is.
use consumer_engine.Prelude.{
  ℕ, zero, suc, ◌≡◌, refl, sym, ap, ◌∙◌, Bool, true, false, Option, none, some, List, [], ◌∷◌, ◌++◌,
  Text, text_eq, text_eq_iff, length, if◌then◌else◌, arith,
}
use consumer_engine.Storage.Dedup.{Row, cell_at, replace_at}

abbrev pub is_key : Text → Option Text → Bool
is_key k none = false
is_key k (some c) = text_eq c k

unfoldable pub rows_with : ℕ → Text → List Row → List Row
rows_with i k [] = []
rows_with i k (r ∷ rs) =
    let later = rows_with i k rs in if is_key k (cell_at i r) then r ∷ later else later

-- The last row, alone.
unfoldable pub only_last : List Row → List Row
only_last [] = []
only_last (r ∷ []) = r ∷ []
only_last (r ∷ s ∷ rs) = only_last (s ∷ rs)

abbrev pub tail_of : List Row → List Row
tail_of [] = []
tail_of (r ∷ rs) = rs

abbrev pub one_later : Option ℕ → Option ℕ
one_later none = none
one_later (some j) = some (suc j)

abbrev pub or_then : Option ℕ → Option ℕ → Option ℕ
or_then none other = other
or_then (some j) other = some j

-- Where the first row of a key is.
unfoldable pub first_at : ℕ → Text → List Row → Option ℕ
first_at i k [] = none
first_at i k (r ∷ rs) =
    let later = one_later (first_at i k rs) in if is_key k (cell_at i r) then some 0 else later

pub only_last-append : (xs : List Row) (r : Row) → only_last (xs ++ r ∷ []) ≡ r ∷ []
unfolding only_last
only_last-append [] r = refl
only_last-append (x ∷ []) r = refl
only_last-append (x ∷ y ∷ xs) r = only_last-append (y ∷ xs) r

pub tail_of-only_last : (xs : List Row) → tail_of (only_last xs) ≡ []
unfolding only_last
tail_of-only_last [] = refl
tail_of-only_last (x ∷ []) = refl
tail_of-only_last (x ∷ y ∷ xs) = tail_of-only_last (y ∷ xs)

pub is_key_sound : (k : Text) (cell : Option Text) → is_key k cell ≡ true → cell ≡ some k
is_key_sound k none h = absurd (cc h)
is_key_sound k (some c) h = ap (λ t. some t) ((text_eq_iff c k).0 h)

pub rows_with-append :
    (i : ℕ) (k : Text) (xs : List Row) (r : Row)
    → rows_with i k (xs ++ r ∷ [])
      ≡ (if is_key k (cell_at i r) then rows_with i k xs ++ r ∷ [] else rows_with i k xs)
unfolding rows_with
rows_with-append i k [] r = ground arith
rows_with-append i k (x ∷ xs) r = ground (arith, rows_with-append i k xs r)

pub first_append_cases :
    (b c : Bool) (m : Option ℕ) (n : ℕ)
    → (if b then some 0 else one_later (or_then m (if c then some n else none)))
      ≡ or_then (if b then some 0 else one_later m) (if c then some (suc n) else none)
first_append_cases true c m n = refl
first_append_cases false c (some j) n = refl
first_append_cases false true none n = refl
first_append_cases false false none n = refl

pub first_at-append :
    (i : ℕ) (k : Text) (xs : List Row) (r : Row)
    → first_at i k (xs ++ r ∷ [])
      ≡ or_then (first_at i k xs) (if is_key k (cell_at i r) then some (length xs) else none)
unfolding first_at
first_at-append i k [] r = refl
first_at-append i k (x ∷ xs) r =
    ap (λ m. if is_key k (cell_at i x) then some 0 else one_later m) (first_at-append i k xs r)
    ∙ first_append_cases (is_key k (cell_at i x)) (is_key k (cell_at i r)) (first_at i k xs)
        (length xs)

pub first_at-none :
    (i : ℕ) (k : Text) (rs : List Row) → first_at i k rs ≡ none → rows_with i k rs ≡ []
unfolding first_at rows_with
first_at-none i k [] h = refl
first_at-none i k (r ∷ rs) h =
    none_cases (is_key k (cell_at i r)) r (first_at i k rs) (first_at-none i k rs) h
  where
    none_cases :
        (b : Bool) (r : Row) (m : Option ℕ)
        → (m ≡ none → rows_with i k rs ≡ [])
        → (if b then some 0 else one_later m) ≡ none
        → (if b then r ∷ rows_with i k rs else rows_with i k rs) ≡ []
    none_cases true r m rest h = absurd (cc h)
    none_cases false r none rest h = rest refl
    none_cases false r (some j) rest h = absurd (cc h)

-- The first row of the key is replaced by another row of the key.
pub data IsReplaced (i : ℕ) (k : Text) (row : Row) : List Row → List Row → Type 0 where
  here : {r : Row} {rs : List Row} → cell_at i r ≡ some k → IsReplaced i k row (r ∷ rs) (row ∷ rs)
  there :
      {r : Row} {rs ss : List Row}
      → is_key k (cell_at i r) ≡ false
      → IsReplaced i k row rs ss
      → IsReplaced i k row (r ∷ rs) (r ∷ ss)

pub IsReplaced-cases :
    (i : ℕ) (k : Text) (row r : Row) (rs : List Row)
    → ((j : ℕ) → first_at i k rs ≡ some j → IsReplaced i k row rs (replace_at j row rs))
    → (b : Bool) → is_key k (cell_at i r) ≡ b
    → (m : Option ℕ) → first_at i k rs ≡ m
    → (j : ℕ) → (if b then some 0 else one_later m) ≡ some j
    → IsReplaced i k row (r ∷ rs) (replace_at j row (r ∷ rs))
unfolding replace_at
IsReplaced-cases i k row r rs rest true eb m em zero e = here (is_key_sound k _ eb)
IsReplaced-cases i k row r rs rest true eb m em (suc j) e = absurd (cc e)
IsReplaced-cases i k row r rs rest false eb none em j e = absurd (cc e)
IsReplaced-cases i k row r rs rest false eb (some n) em zero e = absurd (cc e)
IsReplaced-cases i k row r rs rest false eb (some n) em (suc j) e = there eb (rest j (em ∙ cc e))

pub replace_at-IsReplaced :
    (i : ℕ) (k : Text) (row : Row) (rs : List Row) (j : ℕ)
    → first_at i k rs ≡ some j
    → IsReplaced i k row rs (replace_at j row rs)
unfolding first_at
replace_at-IsReplaced i k row [] j e = absurd (cc e)
replace_at-IsReplaced i k row (r ∷ rs) j e =
    IsReplaced-cases i k row r rs (replace_at-IsReplaced i k row rs) _ refl _ refl j e

pub first_at-IsReplaced :
    {i : ℕ} {k : Text} {row : Row} {rs ss : List Row} (other : Text)
    → cell_at i row ≡ some k
    → IsReplaced i k row rs ss
    → first_at i other ss ≡ first_at i other rs
unfolding first_at
first_at-IsReplaced {i} {k} {row} other new (here {r} {rs} old) =
    ap (λ c. if is_key other c then some 0 else one_later (first_at i other rs)) (new ∙ sym old)
first_at-IsReplaced {i} {k} {row} other new (there {r} miss inner) =
    ap (λ m. if is_key other (cell_at i r) then some 0 else one_later m)
      (first_at-IsReplaced other new inner)

pub rows_with-IsReplaced :
    {i : ℕ} {k : Text} {row : Row} {rs ss : List Row}
    → cell_at i row ≡ some k
    → IsReplaced i k row rs ss
    → rows_with i k ss ≡ row ∷ tail_of (rows_with i k rs)
unfolding rows_with
rows_with-IsReplaced {i} {k} {row} new (here {r} {rs} old) =
    ground (arith, new, old, text_eq_iff k k)
rows_with-IsReplaced {i} {k} {row} new (there {r} {rs} {ss} miss inner) =
    ground (arith, miss, rows_with-IsReplaced new inner)

pub rows_with-other :
    {i : ℕ} {k : Text} {row : Row} {rs ss : List Row} (other : Text)
    → cell_at i row ≡ some k
    → text_eq k other ≡ false
    → IsReplaced i k row rs ss
    → rows_with i other ss ≡ rows_with i other rs
unfolding rows_with
rows_with-other {i} {k} {row} other new differs (here {r} {rs} old) =
    ground (arith, new, old, differs)
rows_with-other {i} {k} {row} other new differs (there {r} {rs} {ss} miss inner) =
    ap (λ later. if is_key other (cell_at i r) then r ∷ later else later)
      (rows_with-other other new differs inner)
