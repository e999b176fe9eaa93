-- ===== src/Query/Binding/Agreement.antt =====
-- Two computations that may fail, compared; and what a fragment that pushes parameters emits.
use consumer_engine.Prelude.{◌≡◌, refl, List, ◌++◌, Text, ok, err, ◌>>=◌}
use consumer_engine.Query.Json.{Value}
use consumer_engine.Query.Fault.{QueryResult}
use consumer_engine.Query.Binding.{Reads}
use consumer_engine.Query.Binding.Rules.{Pieces}

-- Both return, in the relation; or both fail, with the same error.
abbrev pub Agree : {A B : Type 0} → (A → B → Type 0) → QueryResult A → QueryResult B → Type 0
Agree R (ok a) (ok b) = R a b
Agree R (err e) (err f) = e ≡ f
Agree R _ _ = ⊥

pub Agree-bind :
    {A B C D : Type 0} (R : A → B → Type 0) (S : C → D → Type 0) (m : QueryResult A)
    (n : QueryResult B) (f : A → QueryResult C) (g : B → QueryResult D)
    → Agree R m n
    → ((a : A) (b : B) → R a b → Agree S (f a) (g b))
    → Agree S (m >>= f) (n >>= g)
Agree-bind R S (ok a) (ok b) f g h k = k a b h
Agree-bind R S (err e) (err e') f g h k = h
Agree-bind R S (ok a) (err e) f g h k = elim h [ ]
Agree-bind R S (err e) (ok b) f g h k = elim h [ ]

-- The same first step on both sides.
pub Agree-same :
    {A C D : Type 0} (S : C → D → Type 0) (m : QueryResult A) (f : A → QueryResult C)
    (g : A → QueryResult D)
    → ((a : A) → Agree S (f a) (g a))
    → Agree S (m >>= f) (m >>= g)
Agree-same S (ok a) f g k = k a
Agree-same S (err e) f g k = refl

-- The right side goes on with a step that does not fail.
pub Agree-right :
    {A B D : Type 0} (R : A → B → Type 0) (S : A → D → Type 0) (m : QueryResult A)
    (n : QueryResult B) (g : B → D)
    → Agree R m n
    → ((a : A) (b : B) → R a b → S a (g b))
    → Agree S m (n >>= λ b. ok (g b))
Agree-right R S (ok a) (ok b) g h k = k a b h
Agree-right R S (err e) (err e') g h k = h
Agree-right R S (ok a) (err e) g h k = elim h [ ]
Agree-right R S (err e) (ok b) g h k = elim h [ ]

-- The left side goes on with a step that does not fail.
pub Agree-left :
    {A B C : Type 0} (R : A → B → Type 0) (S : C → B → Type 0) (m : QueryResult A)
    (n : QueryResult B) (f : A → C)
    → Agree R m n
    → ((a : A) (b : B) → R a b → S (f a) b)
    → Agree S (m >>= λ a. ok (f a)) n
Agree-left R S (ok a) (ok b) f h k = k a b h
Agree-left R S (err e) (err e') f h k = h
Agree-left R S (ok a) (err e) f h k = elim h [ ]
Agree-left R S (err e) (ok b) f h k = elim h [ ]

module _ (render : Value → Text) where
  -- From `params`, `out` is reached by pushing the parameters that reading `s` takes, in order.
  -- `pushed rest` is those parameters before `rest`.
  pub record Emits (s : Text) (out params : List Value) (t : Text) : Type 0 where
    pub pushed : List Value → List Value
    pub grows : (rest : List Value) → out ++ rest ≡ params ++ pushed rest
    pub reads : (rest : List Value) → Reads render s (pushed rest) t rest

  -- The same of several texts.
  pub record EmitsAll (ss : List Text) (out params : List Value) (ts : List Text) : Type 0 where
    pub pushed : List Value → List Value
    pub grows : (rest : List Value) → out ++ rest ≡ params ++ pushed rest
    pub reads : (rest : List Value) → Pieces render ss (pushed rest) ts rest
