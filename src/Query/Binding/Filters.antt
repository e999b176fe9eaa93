-- ===== src/Query/Binding/Filters.antt =====
-- `Feature` binds to its inlined text (crates/query/src/compiler.rs).
use mathlib.Core.List.{append_assoc}
use consumer_engine.Prelude.{
  ◌≡◌, refl, ◌∙◌, Option, none, some, List, [], ◌∷◌, Text, text, fmt, ok, err, ◌>>=◌, Result,
  map_err,
}
use consumer_engine.Core.Ident.{IdentError, split_feature_name}
use consumer_engine.Query.Json.{Value, Double, double, text_value}
use consumer_engine.Query.Ast.{Cmp, eq, ne, lt, le, gt, ge}
use consumer_engine.Query.Fault.{invalid_dsl, bad_feature_name}
use consumer_engine.Query.Compiler.Types.{Rendered}
use consumer_engine.Query.Compiler.Pieces.{tenant_eq, cmp_symbol}
use consumer_engine.Query.Compiler.Filters.{feature_exists, compile_feature}
use consumer_engine.Query.Inlined.Conjuncts.{inlined_exists, inlined_feature}
use consumer_engine.Query.Binding.{consume, Reads, IsPlain}
use consumer_engine.Query.Binding.Rules.{done, lit, sub, Reads-hole, Reads-fmt}
use consumer_engine.Query.Binding.Agreement.{Agree}
use consumer_engine.Query.Binding.Names.{split_feature_name-IsPlain}
use consumer_engine.Query.Binding.Predicates.{Emitted, tenant_eq-Emits}

module _ (render : Value → Text) where
  two_holes :
      (name as_of : Text) (rest : List Value)
      → Reads render
          (text
            " AND f.feature_name = ? AND f.as_of_ts <= CAST(? AS TIMESTAMPTZ) GROUP BY f.user_id, f.feature_name HAVING arg_max(f.num_value, f.as_of_ts) ")
          (text_value name ∷ text_value as_of ∷ rest)
          (fmt (
            text " AND f.feature_name = "
            ∷ render (text_value name)
            ∷ text " AND f.as_of_ts <= CAST("
            ∷ render (text_value as_of)
            ∷ text
                " AS TIMESTAMPTZ) GROUP BY f.user_id, f.feature_name HAVING arg_max(f.num_value, f.as_of_ts) "
            ∷ []))
          rest
  unfolding text fmt consume
  two_holes name as_of rest = record { read = refl }

  feature_exists-Emits :
      (as_of : Option Text) (name family short cmp : Text) (value : Double) (base_key : Text)
      (params : List Value) (tenant alias : Text)
      → IsPlain family × IsPlain short × IsPlain cmp × IsPlain base_key × IsPlain alias
      → Emitted render params
          (feature_exists as_of name family short cmp value base_key
            (tenant_eq (text "f") params tenant)
            alias)
          (inlined_exists render as_of name family short cmp value base_key tenant alias)
  unfolding text
  feature_exists-Emits none name family short cmp value base_key params tenant alias
        (f, s, c, k, a) =
      let e = tenant_eq-Emits render (text "f") params tenant refl in
      record {
        pushed = λ rest. e.pushed (double value ∷ rest);
        grows = λ rest.
            append_assoc (tenant_eq (text "f") params tenant).1 (double value ∷ []) rest
            ∙ e.grows (double value ∷ rest);
        reads = λ rest. Reads-fmt render (
            lit refl (
              lit a (
                lit refl (
                  lit f (
                    lit refl (
                      lit k (
                        lit refl (
                          sub (e.reads (double value ∷ rest)) (
                            lit refl (
                              lit s (
                                lit refl (
                                  lit c (
                                    sub
                                      (Reads-hole render (text " ") (text ")") (double value) rest
                                        refl refl)
                                      done)))))))))))));
      }
  feature_exists-Emits (some as_of) name family short cmp value base_key params tenant alias
        (f, s, c, k, a) =
      let e = tenant_eq-Emits render (text "f") params tenant refl in
      record {
        pushed = λ rest. e.pushed (text_value name ∷ text_value as_of ∷ double value ∷ rest);
        grows = λ rest.
            append_assoc (tenant_eq (text "f") params tenant).1
              (text_value name ∷ text_value as_of ∷ double value ∷ []) rest
            ∙ e.grows (text_value name ∷ text_value as_of ∷ double value ∷ rest);
        reads = λ rest. Reads-fmt render (
            lit refl (
              lit a (
                lit refl (
                  lit k (
                    lit refl (
                      sub (e.reads (text_value name ∷ text_value as_of ∷ double value ∷ rest)) (
                        sub (two_holes name as_of (double value ∷ rest)) (
                          lit c (
                            sub
                              (Reads-hole render (text " ") (text ")") (double value) rest refl
                                refl)
                              done)))))))));
      }

  with_symbol :
      (op : Cmp) (params : List Value) (code : Text → Rendered) (meant : Text → Text)
      → ((cmp : Text) → IsPlain cmp → Emitted render params (code cmp) (meant cmp))
      → Agree
          (Emitted render params)
          (cmp_symbol op >>= λ cmp. ok (code cmp))
          (cmp_symbol op >>= λ cmp. ok (meant cmp))
  unfolding cmp_symbol text
  with_symbol eq params code meant k = k _ refl
  with_symbol ne params code meant k = k _ refl
  with_symbol lt params code meant k = k _ refl
  with_symbol le params code meant k = k _ refl
  with_symbol gt params code meant k = k _ refl
  with_symbol ge params code meant k = k _ refl
  with_symbol _ params code meant k = refl

  pub compile_feature-Agree :
      (name : Text) (op : Cmp) (value : Double) (base_key : Text) (params : List Value)
      (alias tenant : Text) (as_of : Option Text)
      → IsPlain base_key
      → IsPlain alias
      → Agree
          (Emitted render params)
          (compile_feature name op value base_key params alias tenant as_of)
          (inlined_feature render name op value base_key alias tenant as_of)
  unfolding compile_feature inlined_feature
  compile_feature-Agree name op value base_key params alias tenant as_of k a =
      go (split_feature_name name) refl
    where
      go :
          (r : Result IdentError (Text × Text))
          → split_feature_name name ≡ r
          → Agree
              (Emitted render params)
              (map_err (λ e. invalid_dsl (bad_feature_name e)) r >>= λ parts.
                cmp_symbol op >>= λ cmp. ok (
                  feature_exists as_of name parts.0 parts.1 cmp value base_key
                    (tenant_eq (text "f") params tenant)
                    alias))
              (map_err (λ e. invalid_dsl (bad_feature_name e)) r >>= λ parts.
                cmp_symbol op >>= λ cmp.
                ok (
                  inlined_exists render as_of name parts.0 parts.1 cmp value base_key tenant alias))
      go (err e) split = refl
      go (ok (family, short)) split =
          let (f, s) = split_feature_name-IsPlain name family short split in
          with_symbol op params _ _ λ cmp c.
            feature_exists-Emits as_of name family short cmp value base_key params tenant alias
              (f, s, c, k, a)
