-- ===== src/Query/Engine/Reader.antt =====
-- What a read gives, and `timed_read` of crates/query/src/engine.rs.
use consumer_engine.Prelude.{ℕ, Option, none, some, List, [], ◌∷◌, Text, ok, err}
use consumer_engine.Query.Json.{Json, number, string, positive, Value}
use consumer_engine.Query.Fault.{guardrail, execution, statement_timeout, QueryResult}

-- `QueryResult` of crates/execution/src/lib.rs
pub record Table : Type 0 where
  pub columns : List Text
  pub rows : List (List Json)

-- What the reader does with a statement within the timeout, or not.
pub data Reading : Type 0 where
  finished : Table → Reading
  failed : Reading
  timed_out : Reading

abbrev pub Reader : Type 0
Reader = Text → List Value → Reading

abbrev pub or_fault : Reading → QueryResult Table
or_fault (finished t) = ok t
or_fault failed = err execution
or_fault timed_out = err (guardrail statement_timeout)

unfoldable pub timed_read : Reader → Text → List Value → QueryResult Table
timed_read reader sql params = or_fault (reader sql params)

abbrev pub first_cell : List Json → Option Json
first_cell [] = none
first_cell (c ∷ cs) = some c

-- `rows.first().and_then(|r| r.first())`
abbrev pub first_of_first : List (List Json) → Option Json
first_of_first [] = none
first_of_first (r ∷ rs) = first_cell r

abbrev pub as_str : Option Json → Option Text
as_str (some (string s)) = some s
as_str _ = none

abbrev pub as_u64 : Option Json → Option ℕ
as_u64 (some (number (positive n))) = some n
as_u64 _ = none

-- `unwrap_or(0)`
abbrev pub or_zero : Option ℕ → ℕ
or_zero none = 0
or_zero (some n) = n
