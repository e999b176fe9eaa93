-- ===== src/Query/Compiler/Predicates.antt =====
-- Predicates and `IN` lists (crates/query/src/compiler.rs).
use consumer_engine.Prelude.{
  ℕ, zero, suc, Bool, true, false, Option, none, some, List, [], ◌∷◌, ◌++◌, Text, text, fmt, join,
  ok, err, ◌>>=◌, if◌then◌else◌,
}
use consumer_engine.Query.Json.{Json, array, Items, no_items, item, Value, count_items}
use consumer_engine.Query.Ast.{Cmp, in_list, not_in, Predicate}
use consumer_engine.Query.Fault.{
  invalid_dsl, QueryResult, in_requires_array, unsupported_predicate_op,
}
use consumer_engine.Query.Compiler.Types.{Rendered, to_value}
use consumer_engine.Query.Compiler.Pieces.{binary_cmp_symbol}

-- `for item in arr { params.push(to_value(item)?) }`
unfoldable pub push_items : Items → List Value → QueryResult (List Value)
push_items no_items params = ok params
push_items (item x xs) params = do v ← to_value x; push_items xs (params ++ v ∷ [])

-- `vec!["?"; n]`
abbrev pub placeholders : ℕ → List Text
placeholders zero = []
placeholders (suc n) = text "?" ∷ placeholders n

abbrev pub in_keyword : Bool → Text
in_keyword true = text " NOT IN ("
in_keyword false = text " IN ("

unfoldable pub compile_in : Text → Json → List Value → Bool → QueryResult Rendered
compile_in col (array no_items) params negate =
    ok (if negate then text "1=1" else text "1=0", params)
compile_in col (array (item x xs)) params negate = do
  params' ← push_items (item x xs) params
  ok (
    fmt (
        col
        ∷ in_keyword negate
        ∷ join (text ", ") (placeholders (count_items (item x xs)))
        ∷ text ")"
        ∷ []),
    params',
  )
compile_in col _ params negate = err (invalid_dsl in_requires_array)

-- `IN` and `NOT IN`, which have no binary symbol
abbrev pub compile_list_cmp : Cmp → Text → Json → List Value → QueryResult Rendered
compile_list_cmp in_list col v params = compile_in col v params false
compile_list_cmp not_in col v params = compile_in col v params true
compile_list_cmp _ col v params = err (invalid_dsl unsupported_predicate_op)

abbrev pub compile_cmp : Option Text → Cmp → Text → Json → List Value → QueryResult Rendered
compile_cmp (some sym) op col value params = do
  v ← to_value value
  ok (fmt (col ∷ text " " ∷ sym ∷ text " ?" ∷ []), params ++ v ∷ [])
compile_cmp none op col value params = compile_list_cmp op col value params

unfoldable pub compile_predicate : Text → Predicate → List Value → QueryResult Rendered
compile_predicate rel p params =
    compile_cmp (binary_cmp_symbol p.op) p.op (fmt (rel ∷ text "." ∷ p.column ∷ [])) p.value params
