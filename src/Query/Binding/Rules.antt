-- ===== src/Query/Binding/Rules.antt =====
-- How texts that are read compose.
use mathlib.Core.List.{append_assoc, append-nil}
use consumer_engine.Prelude.{
  ℕ, ◌+◌, ◌/◌, ◌%◌, suc, zero, ◌≡◌, refl, sym, inl, inr, Bool-cases, Option, none, some, List, [],
  ◌∷◌, ◌++◌, Text, All, fmt, join, ◌==◌, arith, to_decimal, digits_fuel,
}
use consumer_engine.Query.Json.{Value}
use consumer_engine.Query.Binding.{prepend, take_one, consume, Reads, IsPlain}

pub IsPlain-append : (a b : Text) → IsPlain a → IsPlain b → IsPlain (a ++ b)
IsPlain-append [] b p q = q
IsPlain-append (c ∷ a) b p q = ground (arith, IsPlain-append a b)

prepend-nil : (o : Option (Text × List Value)) → prepend [] o ≡ o
prepend-nil none = refl
prepend-nil (some x) = refl

prepend-prepend :
    (s t : Text) (o : Option (Text × List Value)) → prepend s (prepend t o) ≡ prepend (s ++ t) o
prepend-prepend s t none = refl
prepend-prepend s t (some (a, rest)) = rw append_assoc

pub IsPlain-fmt : (ss : List Text) → All IsPlain ss → IsPlain (fmt ss)
unfolding fmt
IsPlain-fmt [] h = refl
IsPlain-fmt (s ∷ ss) h = IsPlain-append s (fmt ss) h.0 (IsPlain-fmt ss h.1)

module _ (render : Value → Text) where
  consume-plain :
      (s : Text) (params : List Value) → IsPlain s → consume render s params ≡ some (s, params)
  unfolding consume
  consume-plain [] params p = refl
  consume-plain (c ∷ s) params p = ground (arith, consume-plain s params)

  pub Reads-plain : (s : Text) (params : List Value) → IsPlain s → Reads render s params s params
  Reads-plain s params p = record { read = consume-plain s params p }

  abbrev then_read :
      Option (Text × List Value)
      → (List Value → Option (Text × List Value))
      → Option (Text × List Value)
  then_read none read = none
  then_read (some (t, mid)) read = prepend t (read mid)

  prepend-then_read :
      (t : Text) (o : Option (Text × List Value)) (read : List Value → Option (Text × List Value))
      → prepend t (then_read o read) ≡ then_read (prepend t o) read
  prepend-then_read t none read = refl
  prepend-then_read t (some (a, mid)) read = prepend-prepend t a (read mid)

  consume-append :
      (a b : Text) (params : List Value)
      → consume render (a ++ b) params ≡ then_read (consume render a params) (consume render b)
  unfolding consume
  consume-append [] b params = sym (prepend-nil (consume render b params))
  consume-append (c ∷ a) b params = elim (Bool-cases (c == b'?')) [
    | inl hole ↦ rw hole (at_hole (consume-append a b) params)
    | inr other ↦ rw other (
        rw (consume-append a b params)
          (prepend-then_read (c ∷ []) (consume render a params) (consume render b)))
  ]
    where
      at_hole :
          ((ps : List Value)
            → consume render (a ++ b) ps ≡ then_read (consume render a ps) (consume render b))
          → (ps : List Value)
          → take_one render ps (consume render (a ++ b))
            ≡ then_read (take_one render ps (consume render a)) (consume render b)
      at_hole ih [] = refl
      at_hole ih (v ∷ ps) =
          rw (ih ps) (prepend-then_read (render v) (consume render a ps) (consume render b))

  pub Reads-append :
      (a b : Text) (params mid rest : List Value) (a' b' : Text)
      → Reads render a params a' mid
      → Reads render b mid b' rest
      → Reads render (a ++ b) params (a' ++ b') rest
  Reads-append a b params mid rest a' b' p q = record {
    read = rw (consume-append a b params) (rw p.read (rw q.read));
  }

  -- One placeholder between two plain texts.
  pub Reads-hole :
      (before after : Text) (v : Value) (rest : List Value)
      → IsPlain before
      → IsPlain after
      → Reads render (before ++ b'?' ∷ after) (v ∷ rest) (fmt (before ∷ render v ∷ after ∷ [])) rest
  unfolding fmt
  Reads-hole before after v rest p q =
      Reads-append before (b'?' ∷ after) (v ∷ rest) (v ∷ rest) rest before
        (render v ++ (after ++ [])) (Reads-plain before (v ∷ rest) p) (record { read = at_hole })
    where
      at_hole : consume render (b'?' ∷ after) (v ∷ rest) ≡ some (render v ++ (after ++ []), rest)
      at_hole = unfold consume in rw (consume-plain after rest q, append-nil after)

  -- Pieces read one after another: a piece is plain, or takes parameters.
  pub data Pieces : List Text → List Value → List Text → List Value → Type 0 where
    done : {params : List Value} → Pieces [] params [] params
    lit :
        {s : Text} {ss ts : List Text} {params rest : List Value}
        → IsPlain s
        → Pieces ss params ts rest
        → Pieces (s ∷ ss) params (s ∷ ts) rest
    sub :
        {s t : Text} {ss ts : List Text} {params mid rest : List Value}
        → Reads render s params t mid
        → Pieces ss mid ts rest
        → Pieces (s ∷ ss) params (t ∷ ts) rest

  pub Pieces-append :
      {ss ts us vs : List Text} {params mid rest : List Value}
      → Pieces ss params ts mid
      → Pieces us mid vs rest
      → Pieces (ss ++ us) params (ts ++ vs) rest
  Pieces-append done q = q
  Pieces-append (lit h p) q = lit h (Pieces-append p q)
  Pieces-append (sub h p) q = sub h (Pieces-append p q)

  pub Reads-fmt :
      {ss ts : List Text} {params rest : List Value}
      → Pieces ss params ts rest
      → Reads render (fmt ss) params (fmt ts) rest
  unfolding fmt
  Reads-fmt done = Reads-plain [] _ refl
  Reads-fmt (lit {s} {ss} {ts} {params} {rest} h p) =
      Reads-append s (fmt ss) params params rest s (fmt ts) (Reads-plain s params h) (Reads-fmt p)
  Reads-fmt (sub {s} {t} {ss} {ts} {params} {mid} {rest} h p) =
      Reads-append s (fmt ss) params mid rest t (fmt ts) h (Reads-fmt p)

  separated :
      (sep s more t out : Text) (params mid rest : List Value)
      → IsPlain sep
      → Reads render s params t mid
      → Reads render more mid out rest
      → Reads render (s ++ (sep ++ more)) params (t ++ (sep ++ out)) rest
  separated sep s more t out params mid rest plain h k =
      Reads-append s (sep ++ more) params mid rest t (sep ++ out) h
        (Reads-append sep more mid mid rest sep out (Reads-plain sep mid plain) k)

  -- A separator that is plain keeps the reading of a list of texts.
  pub Reads-join :
      (sep : Text) {ss ts : List Text} {params rest : List Value}
      → IsPlain sep
      → Pieces ss params ts rest
      → Reads render (join sep ss) params (join sep ts) rest
  unfolding join
  Reads-join sep plain done = Reads-plain [] _ refl
  Reads-join sep plain (lit h done) = Reads-plain _ _ h
  Reads-join sep plain (sub h done) = h
  Reads-join sep plain (lit {s} {params = ps} h (lit k p)) =
      separated sep s _ s _ ps ps _ plain (Reads-plain s ps h) (Reads-join sep plain (lit k p))
  Reads-join sep plain (lit {s} {params = ps} h (sub k p)) =
      separated sep s _ s _ ps ps _ plain (Reads-plain s ps h) (Reads-join sep plain (sub k p))
  Reads-join sep plain (sub h (lit k p)) =
      separated sep _ _ _ _ _ _ _ plain h (Reads-join sep plain (lit k p))
  Reads-join sep plain (sub h (sub k p)) =
      separated sep _ _ _ _ _ _ _ plain h (Reads-join sep plain (sub k p))

-- The digits of a number hold no placeholder.
digits_fuel-IsPlain : (f n : ℕ) → IsPlain (digits_fuel f n)
unfolding digits_fuel
digits_fuel-IsPlain zero n = refl
digits_fuel-IsPlain (suc f) n = ground (
  arith,
  digits_fuel-IsPlain f (n / 10),
  IsPlain-append (digits_fuel f (n / 10)) ((b'0' + n % 10) ∷ []),
)

pub to_decimal-IsPlain : (n : ℕ) → IsPlain (to_decimal n)
unfolding to_decimal
to_decimal-IsPlain n = digits_fuel-IsPlain (suc n) n
