-- ===== src/Query/Compiler/Pieces.antt =====
-- The small texts of crates/query/src/compiler.rs: symbols, table names, the tenant conjunct and
-- the base SELECT.
use consumer_engine.Prelude.{
  Option, none, some, List, [], ◌∷◌, ◌++◌, Text, text, fmt, join, ok, err,
}
use consumer_engine.Core.Dataset.{Dataset}
use consumer_engine.Query.Json.{Value, text_value}
use consumer_engine.Query.Ast.{
  Cmp, eq, ne, lt, le, gt, ge, in_list, not_in, like, not_like, SetOpKind, intersect, union, minus,
}
use consumer_engine.Query.Fault.{invalid_dsl, QueryResult, numeric_comparison_required}
use consumer_engine.Query.Compiler.Types.{Rendered}

unfoldable pub setop_keyword : SetOpKind → Text
setop_keyword intersect = text "INTERSECT"
setop_keyword union = text "UNION"
setop_keyword minus = text "EXCEPT"

unfoldable pub cmp_symbol : Cmp → QueryResult Text
cmp_symbol eq = ok (text "=")
cmp_symbol ne = ok (text "<>")
cmp_symbol lt = ok (text "<")
cmp_symbol le = ok (text "<=")
cmp_symbol gt = ok (text ">")
cmp_symbol ge = ok (text ">=")
cmp_symbol _ = err (invalid_dsl numeric_comparison_required)

unfoldable pub binary_cmp_symbol : Cmp → Option Text
binary_cmp_symbol eq = some (text "=")
binary_cmp_symbol ne = some (text "<>")
binary_cmp_symbol lt = some (text "<")
binary_cmp_symbol le = some (text "<=")
binary_cmp_symbol gt = some (text ">")
binary_cmp_symbol ge = some (text ">=")
binary_cmp_symbol like = some (text "LIKE")
binary_cmp_symbol not_like = some (text "NOT LIKE")
binary_cmp_symbol in_list = none
binary_cmp_symbol not_in = none

unfoldable pub raw_table : Dataset → Text → Text
raw_table d alias = fmt (alias ∷ text ".raw_" ∷ d.system ∷ text "_" ∷ d.entity ∷ [])

unfoldable pub tenant_eq : Text → List Value → Text → Rendered
tenant_eq rel params tenant =
    (fmt (rel ∷ text ".tenant_id = ?" ∷ []), params ++ text_value tenant ∷ [])

abbrev pub where_clause : List Text → Text
where_clause [] = []
where_clause (c ∷ cs) = text " WHERE " ++ join (text " AND ") (c ∷ cs)

unfoldable pub base_select : Dataset → Text → List Text → Text → Text
base_select source key conjuncts alias = fmt (
    text "SELECT DISTINCT base."
    ∷ key
    ∷ text " FROM "
    ∷ raw_table source alias
    ∷ text " base"
    ∷ where_clause conjuncts
    ∷ [])
