-- ===== src/Query/Binding/Composition.antt =====
-- How fragments that push parameters compose.
use mathlib.Core.List.{append_assoc}
use consumer_engine.Prelude.{◌≡◌, refl, ◌∙◌, List, [], ◌∷◌, ◌++◌, Text, join}
use consumer_engine.Query.Json.{Value}
use consumer_engine.Query.Binding.{IsPlain}
use consumer_engine.Query.Binding.Rules.{done, lit, sub, Pieces-append, Reads-join}
use consumer_engine.Query.Binding.Agreement.{Emits, EmitsAll}

module _ (render : Value → Text) where
  -- Nothing pushed, no text.
  pub EmitsAll-none : (params : List Value) → EmitsAll render [] params params []
  EmitsAll-none params = record {
    pushed = λ rest. rest;
    grows = λ rest. refl;
    reads = λ rest. done;
  }

  pub EmitsAll-one :
      {s t : Text} {out params : List Value}
      → Emits render s out params t
      → EmitsAll render (s ∷ []) out params (t ∷ [])
  EmitsAll-one e = record {
    pushed = e.pushed;
    grows = e.grows;
    reads = λ rest. sub (e.reads rest) done;
  }

  -- Plain text at the end pushes nothing.
  pub EmitsAll-lit :
      {ss ts : List Text} {out params : List Value} (s : Text)
      → IsPlain s
      → EmitsAll render ss out params ts
      → EmitsAll render (ss ++ s ∷ []) out params (ts ++ s ∷ [])
  EmitsAll-lit s plain e = record {
    pushed = e.pushed;
    grows = e.grows;
    reads = λ rest. Pieces-append render (e.reads rest) (lit plain done);
  }

  -- One fragment after another: the parameters of the second come behind those of the first.
  pub EmitsAll-append :
      {ss ts us vs : List Text} {out mid params : List Value}
      → EmitsAll render ss mid params ts
      → EmitsAll render us out mid vs
      → EmitsAll render (ss ++ us) out params (ts ++ vs)
  EmitsAll-append a b = record {
    pushed = λ rest. a.pushed (b.pushed rest);
    grows = λ rest. b.grows rest ∙ a.grows (b.pushed rest);
    reads = λ rest. Pieces-append render (a.reads (b.pushed rest)) (b.reads rest);
  }

  pub EmitsAll-join :
      {ss ts : List Text} {out params : List Value} (sep : Text)
      → IsPlain sep
      → EmitsAll render ss out params ts
      → Emits render (join sep ss) out params (join sep ts)
  EmitsAll-join sep plain e = record {
    pushed = e.pushed;
    grows = e.grows;
    reads = λ rest. Reads-join render sep plain (e.reads rest);
  }

  -- Values pushed at the end, in front of what comes later.
  pub push : (params more rest : List Value) → (params ++ more) ++ rest ≡ params ++ (more ++ rest)
  push params more rest = append_assoc params more rest
