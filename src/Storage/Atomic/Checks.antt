-- ===== src/Storage/Atomic/Checks.antt =====
-- The checks that come before a transaction leave the writer as it is.
use consumer_engine.Prelude.{
  ℕ, ◌≡◌, refl, sym, ap, ◌∙◌, subst, Option, none, some, List, [], ◌∷◌, Text, Result, ok, err,
}
use consumer_engine.Storage.Machine.{
  StorageError, Statement, Reply, Writer, Action, then_with, lift, ◌>>=◌,
}
use consumer_engine.Storage.Tables.{
  check_ident, check_idents, check_columns, found_key, raw_table_name,
}
use consumer_engine.Storage.Atomic.{IsAbandoned, untouched, IsAtomic}

module _ {Db : Type 0} where
  pub record IsSilent {A : Type 0} (check : Action Db A) : Type 0 where
    pub same : (w : Writer Db) → (check w).1 ≡ w

  abbrev pub of_lift : {A : Type 0} (r : Result StorageError A) → IsSilent (lift r)
  of_lift r = record { same = λ w. refl }

  then_same_writer :
      {A B : Type 0} {next : A → Action Db B}
      → ((a : A) → IsSilent (next a))
      → (r : Result StorageError A × Writer Db) → (then_with next r).1 ≡ r.1
  then_same_writer silent (ok a, w) = (silent a).same w
  then_same_writer silent (err e, w) = refl

  pub IsSilent-then :
      {A B : Type 0} {first : Action Db A} {next : A → Action Db B}
      → IsSilent first
      → ((a : A) → IsSilent (next a))
      → IsSilent (first >>= next)
  IsSilent-then one two = record { same = λ w. then_same_writer two _ ∙ one.same w }

  pub check_ident-IsSilent : (name : Text) → IsSilent (check_ident name)
  unfolding check_ident
  check_ident-IsSilent name = record { same = λ w. refl }

  check_idents-IsSilent : (names : List Text) → IsSilent (check_idents names)
  unfolding check_idents
  check_idents-IsSilent [] = record { same = λ w. refl }
  check_idents-IsSilent (c ∷ cs) =
      IsSilent-then (check_ident-IsSilent c) λ _. check_idents-IsSilent cs

  pub check_columns-IsSilent : (columns : List Text) → IsSilent (check_columns columns)
  unfolding check_columns
  check_columns-IsSilent [] = record { same = λ w. refl }
  check_columns-IsSilent (c ∷ cs) = check_idents-IsSilent (c ∷ cs)

  pub found_key-IsSilent : (i : Option ℕ) → IsSilent (found_key i)
  found_key-IsSilent none = record { same = λ w. refl }
  found_key-IsSilent (some i) = record { same = λ w. refl }

  pub raw_table_name-IsSilent : (system entity : Text) → IsSilent (raw_table_name system entity)
  unfolding raw_table_name
  raw_table_name-IsSilent system entity =
      IsSilent-then (IsSilent-then (check_ident-IsSilent system) λ _. check_ident-IsSilent entity)
        λ _. record { same = λ w. refl }

  then-IsAtomic :
      {V A B : Type 0} (run : Statement → Db → Reply × Db) (view : Db → V) (next : A → Action Db B)
      (w : Writer Db)
      → ((a : A) → IsAtomic run view w (next a w))
      → (r : Result StorageError A × Writer Db) → w ≡ r.1
      → IsAtomic run view w (then_with next r)
  then-IsAtomic run view next w atomic (ok a, w') e =
      subst (λ v. IsAtomic run view w (next a v)) e (atomic a)
  then-IsAtomic run view next w atomic (err e, w') same = (
    subst (λ v. IsAbandoned run w.conn v.conn) same untouched,
    ap (λ v. view v.conn) (sym same),
    ap (λ v. v.write_gen) (sym same),
  )

  -- What runs after the checks decides.
  pub checked_IsAtomic :
      {V A B : Type 0} (run : Statement → Db → Reply × Db) (view : Db → V) {check : Action Db A}
      (next : A → Action Db B) (w : Writer Db)
      → IsSilent check
      → ((a : A) → IsAtomic run view w (next a w))
      → IsAtomic run view w ((check >>= next) w)
  checked_IsAtomic run view {check} next w silent atomic =
      then-IsAtomic run view next w atomic (check w) (sym (silent.same w))
