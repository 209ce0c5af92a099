-- ===== src/Store/Ensures.antt =====
-- Rules for what an action does to the tables when it returns, and for rollback.
use mathlib.Core.Path.{subst}
use fleet_telemetry_system.Prelude.{
  ◌≡◌, refl, sym, ap, ◌∙◌, true, false, List, [], ◌∷◌, Bool, Outcome, ok, raised, arith,
}
use fleet_telemetry_system.Prelude.Exceptions.{Exception}
use fleet_telemetry_system.Store.{
  Db, Session, Action, Statement, pure, lift, execute, attempt, settle, finish, continue,
  transaction, ◌>>=◌,
}

-- Whenever `m` returns a result, `Q` relates the tables before, the result and the tables after.
pub record Ensures {F A : Type 0} (m : Action F A) (Q : Db F → A → Db F → Type 0) : Type 0 where
  pub at : (s : Session F) (a : A) → (m s).0 ≡ ok a → Q s.db a (m s).1.db

module _ {F A : Type 0} where
  pub Ensures-pure : (a : A) → Ensures (pure {S = Session F} a) (λ b x b'. (a ≡ x) × (b' ≡ b))
  Ensures-pure a = record { at = λ s x h. ground arith }

  pub Ensures-lift :
      (r : Outcome A) → Ensures (lift {S = Session F} r) (λ b x b'. (r ≡ ok x) × (b' ≡ b))
  Ensures-lift r = record { at = λ s x h. ground arith }

  settle-cases :
      (r : Outcome (A × Db F)) (s : Session F) (a : A)
      → (settle r s).0 ≡ ok a
      → r ≡ ok (a, (settle r s).1.db)
  settle-cases (ok (x, db)) s a h = ground arith
  settle-cases (raised e) s a h = cc

  execute-cases :
      (q : Statement F A) (l : List Bool) (s : Session F) (a : A)
      → (attempt l q s).0 ≡ ok a
      → q s.db ≡ ok (a, (attempt l q s).1.db)
  execute-cases q [] s a h = settle-cases (q s.db) s a h
  execute-cases q (true ∷ l) s a h = cc
  execute-cases q (false ∷ l) s a h = settle-cases (q s.db) (record s { outages = l }) a h

  pub Ensures-execute : (q : Statement F A) → Ensures (execute q) (λ b a b'. q b ≡ ok (a, b'))
  unfolding execute
  Ensures-execute q = record { at = λ s a h. execute-cases q s.outages s a h }

  finish-ok :
      (b : Db F) (r : Outcome A × Session F) {a : A} (P : Db F → Type 0)
      → (r.0 ≡ ok a → P r.1.db)
      → (finish b r).0 ≡ ok a
      → P (finish b r).1.db
  finish-ok b (ok x, s) P k h = k h
  finish-ok b (raised e, s) P k h = cc

  -- A transaction that raises has changed nothing; one that returns has done what its body does.
  pub transaction-rollback :
      (body : Action F A) (s : Session F) (e : Exception)
      → (transaction body s).0 ≡ raised e
      → (transaction body s).1.db ≡ s.db
  unfolding transaction
  transaction-rollback body s e h = ground arith

  pub transaction-ok :
      (body : Action F A) (s : Session F) {a : A}
      → (body s).0 ≡ ok a
      → (transaction body s).0 ≡ ok a
  unfolding transaction
  transaction-ok body s h = ground arith

  pub Ensures-transaction :
      {body : Action F A} {Q : Db F → A → Db F → Type 0}
      → Ensures body Q
      → Ensures (transaction body) Q
  unfolding transaction
  Ensures-transaction {body} {Q} k = record {
    at = λ s a h. finish-ok s.db (body s) (Q s.db a) (k.at s a) h;
  }

-- What a transaction has done to the tables, by its outcome: as `Q` says if it returned a result, and
-- nothing if it raised.
abbrev pub Transacted :
    {F A : Type 0} → (Db F → A → Db F → Type 0) → Session F → Outcome A × Session F → Type 0
Transacted Q s (ok a, s') = Q s.db a s'.db
Transacted Q s (raised _, s') = s'.db ≡ s.db

module _ {F A : Type 0} where
  pub transaction-Transacted :
      {body : Action F A} {Q : Db F → A → Db F → Type 0} (s : Session F)
      → Ensures body Q
      → Transacted Q s (transaction body s)
  transaction-Transacted {body} {Q} s k = go (transaction body s) refl
    where
      go : (r : Outcome A × Session F) → transaction body s ≡ r → Transacted Q s r
      go (ok a, s') h =
          subst (Q s.db a) (ap (λ r. r.1.db) h) ((Ensures-transaction k).at s a (ap (λ r. r.0) h))
      go (raised x, s') h =
          sym (ap (λ r. r.1.db) h) ∙ transaction-rollback body s x (ap (λ r. r.0) h)

module _ {F A B : Type 0} where
  continue-ok :
      (Q : Db F → A → Db F → Type 0) (R : A → Db F → B → Db F → Type 0) (b : Db F)
      (f : A → Action F B) (r : Outcome A × Session F) (y : B)
      → ((a : A) → r.0 ≡ ok a → Q b a r.1.db)
      → ((a : A) → Ensures (f a) (R a))
      → (continue r.0 f r.1).0 ≡ ok y
      → (a : A) × (b' : Db F) × Q b a b' × R a b' y (continue r.0 f r.1).1.db
  continue-ok Q R b f (ok a, s) y km kf h = (a, s.db, km a refl, (kf a).at s y h)
  continue-ok Q R b f (raised e, s) y km kf h = cc

  pub Ensures-bind :
      {m : Action F A} {f : A → Action F B} {Q : Db F → A → Db F → Type 0}
      {R : A → Db F → B → Db F → Type 0}
      → Ensures m Q
      → ((a : A) → Ensures (f a) (R a))
      → Ensures (m >>= f) (λ b y b''. (a : A) × (b' : Db F) × Q b a b' × R a b' y b'')
  unfolding ◌>>=◌
  Ensures-bind {m} {f} {Q} {R} km kf = record {
    at = λ s y h. continue-ok Q R s.db f (m s) y (km.at s) kf h;
  }
