-- ===== src/Query/Compiler/Types.antt =====
-- The context and the result of a compilation, and the values that it binds
-- (crates/query/src/compiler.rs).
use consumer_engine.Prelude.{ℤ, ℕ, Option, none, some, List, Text, text, ok, err}
use consumer_engine.Core.Dataset.{Dataset}
use consumer_engine.Query.Json.{
  Json, null, boolean, number, string, array, object, Number, Double, Value, big_int, double,
  text_value, as_i64, as_f64,
}
use consumer_engine.Query.Fault.{invalid_dsl, QueryResult, unsupported_number, scalar_required}
use consumer_engine.Core.Config.{SuppressionRules}

abbrev pub read_only_catalog_alias : Text
read_only_catalog_alias = text "dro"

abbrev pub write_catalog_alias : Text
write_catalog_alias = text "dl"

abbrev pub default_tenant : Text
default_tenant = text "default"

pub record CompileOptions : Type 0 where
  pub alias : Text
  pub suppression : SuppressionRules
  pub derive_limit : Option ℕ
  pub tenant : Text

pub record CompiledQuery : Type 0 where
  pub sql : Text
  pub params : List Value
  pub sources : List Dataset

-- A rendered text and the parameters pushed so far.
abbrev pub Rendered : Type 0
Rendered = Text × List Value

abbrev pub one_value : Option Double → QueryResult Value
one_value none = err (invalid_dsl unsupported_number)
one_value (some x) = ok (double x)

abbrev pub number_value : Number → Option ℤ → QueryResult Value
number_value n (some i) = ok (big_int i)
number_value n none = one_value (as_f64 n)

unfoldable pub to_value : Json → QueryResult Value
to_value null = ok Value.null
to_value (boolean b) = ok (Value.boolean b)
to_value (number n) = number_value n (as_i64 n)
to_value (string s) = ok (text_value s)
to_value (array xs) = err (invalid_dsl scalar_required)
to_value (object ms) = err (invalid_dsl scalar_required)
