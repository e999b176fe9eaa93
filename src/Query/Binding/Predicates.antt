-- ===== src/Query/Binding/Predicates.antt =====
-- Predicates bind to their inlined text.
use mathlib.Core.List.{append_assoc}
use consumer_engine.Prelude.{
  suc, refl, Bool, true, false, some, List, [], ◌∷◌, ◌++◌, Text, text, fmt, join, if◌then◌else◌,
}
use consumer_engine.Query.Json.{
  Json, null, boolean, number, string, array, object, Items, no_items, item, Value, text_value,
  count_items,
}
use consumer_engine.Query.Ast.{
  Cmp, eq, ne, lt, le, gt, ge, like, not_like, in_list, not_in, Predicate,
}
use consumer_engine.Query.Compiler.Types.{Rendered, to_value}
use consumer_engine.Query.Compiler.Pieces.{binary_cmp_symbol, tenant_eq}
use consumer_engine.Query.Compiler.Predicates.{
  push_items, placeholders, in_keyword, compile_in, compile_cmp, compile_predicate,
}
use consumer_engine.Query.Inlined.Conjuncts.{
  tenant_is, inlined_items, inlined_in, inlined_cmp, inlined_predicate,
}
use consumer_engine.Query.Binding.{IsPlain}
use consumer_engine.Query.Binding.Rules.{
  done, lit, sub, IsPlain-fmt, Reads-plain, Reads-hole, Reads-fmt, Reads-join,
}
use consumer_engine.Query.Binding.Agreement.{
  Agree, Agree-bind, Agree-same, Agree-right, Emits, EmitsAll,
}
use consumer_engine.Query.Binding.Composition.{EmitsAll-none, EmitsAll-append}

module _ (render : Value → Text) where
  -- What a fragment that returns its text and the parameters so far is compared by.
  abbrev pub Emitted : List Value → Rendered → Text → Type 0
  Emitted params r t = Emits render r.0 r.1 params t

  pub tenant_eq-Emits :
      (rel : Text) (params : List Value) (tenant : Text)
      → IsPlain rel
      → Emitted params (tenant_eq rel params tenant) (tenant_is render rel tenant)
  unfolding tenant_eq text
  tenant_eq-Emits rel params tenant plain = record {
    pushed = λ rest. text_value tenant ∷ rest;
    grows = λ rest. append_assoc params (text_value tenant ∷ []) rest;
    reads = λ rest. Reads-fmt render (
        lit plain (
          sub (Reads-hole render (text ".tenant_id = ") [] (text_value tenant) rest refl refl)
            done));
  }

  placeholder :
      (v : Value) (params : List Value)
      → EmitsAll render
          (text "?" ∷ [])
          (params ++ v ∷ [])
          params
          (fmt ([] ∷ render v ∷ [] ∷ []) ∷ [])
  unfolding text
  placeholder v params = record {
    pushed = λ rest. v ∷ rest;
    grows = λ rest. append_assoc params (v ∷ []) rest;
    reads = λ rest. sub (Reads-hole render [] [] v rest refl refl) done;
  }

  push_items-Agree :
      (xs : Items) (params : List Value)
      → Agree
          (λ out ts. EmitsAll render (placeholders (count_items xs)) out params ts)
          (push_items xs params)
          (inlined_items render xs)
  unfolding push_items inlined_items
  push_items-Agree no_items params = EmitsAll-none render params
  push_items-Agree (item x xs) params =
      Agree-same (λ out ts. EmitsAll render (placeholders (suc (count_items xs))) out params ts)
        (to_value x) _ _
        λ v.
          Agree-right
            (λ out ts. EmitsAll render (placeholders (count_items xs)) out (params ++ v ∷ []) ts)
            (λ out ts. EmitsAll render (placeholders (suc (count_items xs))) out params ts) _ _ _
            (push_items-Agree xs (params ++ v ∷ []))
            λ out ts e. EmitsAll-append render (placeholder v params) e

  in_keyword-IsPlain : (negate : Bool) → IsPlain (in_keyword negate)
  unfolding text
  in_keyword-IsPlain true = refl
  in_keyword-IsPlain false = refl

  always-IsPlain : (negate : Bool) → IsPlain (if negate then text "1=1" else text "1=0")
  unfolding text
  always-IsPlain true = refl
  always-IsPlain false = refl

  -- Text alone, with nothing pushed.
  pub Emits-plain : (s : Text) (params : List Value) → IsPlain s → Emitted params (s, params) s
  Emits-plain s params plain = record {
    pushed = λ rest. rest;
    grows = λ rest. refl;
    reads = λ rest. Reads-plain render s rest plain;
  }

  compile_in-Agree :
      (col : Text) (v : Json) (negate : Bool) (params : List Value)
      → IsPlain col
      → Agree (Emitted params) (compile_in col v params negate) (inlined_in render col v negate)
  unfolding compile_in inlined_in
  compile_in-Agree col null negate params plain = refl
  compile_in-Agree col (boolean b) negate params plain = refl
  compile_in-Agree col (number b) negate params plain = refl
  compile_in-Agree col (string b) negate params plain = refl
  compile_in-Agree col (object b) negate params plain = refl
  compile_in-Agree col (array no_items) negate params plain =
      Emits-plain _ params (always-IsPlain negate)
  compile_in-Agree col (array (item x xs)) negate params plain =
      Agree-bind (λ out ts. EmitsAll render (placeholders (suc (count_items xs))) out params ts)
        (Emitted params) (push_items (item x xs) params) (inlined_items render (item x xs)) _ _
        (push_items-Agree (item x xs) params) λ out ts e. listed out ts e
    where
      listed :
          (out : List Value) (ts : List Text)
          → EmitsAll render (placeholders (suc (count_items xs))) out params ts
          → Emitted params
              (
                fmt (
                    col
                    ∷ in_keyword negate
                    ∷ join (text ", ") (placeholders (suc (count_items xs)))
                    ∷ text ")"
                    ∷ []),
                out,
              )
              (fmt (col ∷ in_keyword negate ∷ join (text ", ") ts ∷ text ")" ∷ []))
      listed out ts e =
          unfold text in
          record {
            pushed = e.pushed;
            grows = e.grows;
            reads = λ rest. Reads-fmt render (
                lit plain (
                  lit (in_keyword-IsPlain negate)
                    (sub (Reads-join render (text ", ") refl (e.reads rest)) (lit refl done))));
          }

  -- A symbol between a column and a placeholder.
  binary-Agree :
      (col sym : Text) (value : Json) (op : Cmp) (params : List Value)
      → IsPlain col
      → IsPlain sym
      → Agree
          (Emitted params)
          (compile_cmp (some sym) op col value params)
          (inlined_cmp render (some sym) op col value)
  unfolding text
  binary-Agree col sym value op params plain h =
      Agree-same (Emitted params) (to_value value) _ _ λ v. record {
        pushed = λ rest. v ∷ rest;
        grows = λ rest. append_assoc params (v ∷ []) rest;
        reads = λ rest. Reads-fmt render (
            lit plain
              (lit refl (lit h (sub (Reads-hole render (text " ") [] v rest refl refl) done))));
      }

  compile_cmp-Agree :
      (op : Cmp) (col : Text) (value : Json) (params : List Value)
      → IsPlain col
      → Agree
          (Emitted params)
          (compile_cmp (binary_cmp_symbol op) op col value params)
          (inlined_cmp render (binary_cmp_symbol op) op col value)
  unfolding binary_cmp_symbol text
  compile_cmp-Agree in_list col value params plain = compile_in-Agree col value false params plain
  compile_cmp-Agree not_in col value params plain = compile_in-Agree col value true params plain
  compile_cmp-Agree eq col value params plain = binary-Agree col _ value eq params plain refl
  compile_cmp-Agree ne col value params plain = binary-Agree col _ value ne params plain refl
  compile_cmp-Agree lt col value params plain = binary-Agree col _ value lt params plain refl
  compile_cmp-Agree le col value params plain = binary-Agree col _ value le params plain refl
  compile_cmp-Agree gt col value params plain = binary-Agree col _ value gt params plain refl
  compile_cmp-Agree ge col value params plain = binary-Agree col _ value ge params plain refl
  compile_cmp-Agree like col value params plain = binary-Agree col _ value like params plain refl
  compile_cmp-Agree not_like col value params plain =
      binary-Agree col _ value not_like params plain refl

  pub compile_predicate-Agree :
      (rel : Text) (p : Predicate) (params : List Value)
      → IsPlain rel
      → IsPlain p.column
      → Agree (Emitted params) (compile_predicate rel p params) (inlined_predicate render rel p)
  unfolding compile_predicate inlined_predicate text
  compile_predicate-Agree rel p params plain column =
      compile_cmp-Agree p.op _ p.value params
        (IsPlain-fmt (rel ∷ text "." ∷ p.column ∷ []) (plain, (refl, (column, tt))))
