-- ===== src/Storage/Atomic/Bodies.antt =====
-- The pieces of a transaction's body, each of which runs `sql` statements alone.
use consumer_engine.Prelude.{◌≡◌, refl, ap, ◌∙◌, List, [], Text, Result, ok, err}
use consumer_engine.Query.Json.{Value}
use consumer_engine.Storage.Machine.{
  StorageError, storage, Statement, sql, Reply, failed, Writer, Action, pure, raise, lift,
  then_with, ◌>>=◌, with_tenant, perform, execute, execute_batch, query,
}
use consumer_engine.Storage.Atomic.{Inside, after, Applied, applied, Keeps}

not_refused :
    {A : Type 0} (read : Reply → Result StorageError A)
    → read failed ≡ err storage
    → (reply : Reply) (a : A) → read reply ≡ ok a
    → ¬ (reply ≡ failed)
not_refused read reports reply a h refused = cc (reports, h, ap read refused)

module _ {Db : Type 0} {run : Statement → Db → Reply × Db} where
  pub Keeps-pure : {A : Type 0} (a : A) → Keeps run (pure a)
  Keeps-pure a = record {
    stays = λ w inside. inside;
    succeeds = λ w b h whole. whole;
    same_gen = λ w. refl;
  }

  pub Keeps-raise : {A : Type 0} (e : StorageError) → Keeps {A = A} run (raise e)
  Keeps-raise e = record {
    stays = λ w inside. inside;
    succeeds = λ w b h whole. whole;
    same_gen = λ w. refl;
  }

  pub Keeps-lift : {A : Type 0} (r : Result StorageError A) → Keeps run (lift r)
  Keeps-lift r = record {
    stays = λ w inside. inside;
    succeeds = λ w b h whole. whole;
    same_gen = λ w. refl;
  }

  Keeps-perform :
      {A : Type 0} (read : Reply → Result StorageError A)
      → read failed ≡ err storage
      → (text : Text) (params : List Value) → Keeps run (perform run read (sql text params))
  unfolding perform
  Keeps-perform read reports text params = record {
    stays = λ w inside. after inside text params;
    succeeds = λ w a h whole. applied whole text params (not_refused read reports _ a h);
    same_gen = λ w. refl;
  }

  then_stays :
      {A B : Type 0} {next : A → Action Db B}
      → ((a : A) → Keeps run (next a))
      → {d : Db} (r : Result StorageError A × Writer Db) → Inside run d r.1.conn
      → Inside run d (then_with next r).1.conn
  then_stays keeps (ok a, w) inside = (keeps a).stays w inside
  then_stays keeps (err e, w) inside = inside

  then_succeeds :
      {A B : Type 0} {next : A → Action Db B}
      → ((a : A) → Keeps run (next a))
      → {d : Db} (r : Result StorageError A × Writer Db) (b : B) → (then_with next r).0 ≡ ok b
      → ((a : A) → r.0 ≡ ok a → Applied run d r.1.conn)
      → Applied run d (then_with next r).1.conn
  then_succeeds keeps (ok a, w) b h whole = (keeps a).succeeds w b h (whole a refl)
  then_succeeds keeps (err e, w) b h whole = absurd (cc h)

  then_same :
      {A B : Type 0} {next : A → Action Db B}
      → ((a : A) → Keeps run (next a))
      → (r : Result StorageError A × Writer Db) → (then_with next r).1.write_gen ≡ r.1.write_gen
  then_same keeps (ok a, w) = (keeps a).same_gen w
  then_same keeps (err e, w) = refl

  pub Keeps-then :
      {A B : Type 0} {first : Action Db A} {next : A → Action Db B}
      → Keeps run first
      → ((a : A) → Keeps run (next a))
      → Keeps run (first >>= next)
  Keeps-then one two = record {
    stays = λ w inside. then_stays two _ (one.stays w inside);
    succeeds = λ w b h whole. then_succeeds two _ b h λ a e. one.succeeds w a e whole;
    same_gen = λ w. then_same two _ ∙ one.same_gen w;
  }

  pub Keeps-with_tenant :
      {A : Type 0} {use_it : Text → Action Db A}
      → ((tenant : Text) → Keeps run (use_it tenant))
      → Keeps run (with_tenant use_it)
  Keeps-with_tenant keeps = record {
    stays = λ w inside. (keeps w.tenant).stays w inside;
    succeeds = λ w a h whole. (keeps w.tenant).succeeds w a h whole;
    same_gen = λ w. (keeps w.tenant).same_gen w;
  }

  pub Keeps-execute : (text : Text) (params : List Value) → Keeps run (execute run text params)
  unfolding execute
  Keeps-execute text params = Keeps-perform _ refl text params

  pub Keeps-execute_batch : (text : Text) → Keeps run (execute_batch run text)
  unfolding execute_batch
  Keeps-execute_batch text = Keeps-perform _ refl text []

  pub Keeps-query : (text : Text) (params : List Value) → Keeps run (query run text params)
  unfolding query
  Keeps-query text params = Keeps-perform _ refl text params
