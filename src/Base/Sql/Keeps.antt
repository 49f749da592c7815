-- ===== src/Base/Sql/Keeps.antt =====
-- What an action keeps true of the tables, one rule for each way to build an action.
use hss_science.Base.{
  [], bind_of_ok, pure_lem, sym, ◌∙◌, ap, subst, bind-eq-ok, pure-eq-ok, ℕ, ◌≡◌, refl, Bool, true,
  false, Option, none, some, Result, ok, err, Action, pure, fail, lift, gets, ◌>>=◌, handle,
  if◌then◌else◌, on_row, arith, map_err, Bool-cases, inl, inr, resume, continue, [],
}
use hss_science.Base.Sql.{
  World, next_fault, statement, query, call_outside, mint, rollback, in_transaction, transaction,
}

-- `P` holds after `m` where it held before, whether `m` returns or fails.
pub record Keeps {ℓ} {T O E A : Type ℓ} (P : T → Type ℓ) (m : Action (World T O) E A) : Type ℓ where
  pub at : (w : World T O) → P w.tables → P (m w).1.tables

module _ {ℓ} {T O E A : Type ℓ} {P : T → Type ℓ} where
  pub Keeps-pure : (a : A) → Keeps {O = O} {E = E} P (pure a)
  unfolding pure
  Keeps-pure a = record { at = λ w h. h }

  pub Keeps-fail : (e : E) → Keeps {O = O} {A = A} P (fail e)
  unfolding fail
  Keeps-fail e = record { at = λ w h. h }

  pub Keeps-lift : (r : Result E A) → Keeps {O = O} P (lift r)
  unfolding lift
  Keeps-lift r = record { at = λ w h. h }

  pub Keeps-gets : (f : World T O → A) → Keeps {E = E} P (gets f)
  unfolding gets
  Keeps-gets f = record { at = λ w h. h }

  pub Keeps-mint : (f : ℕ → A) → Keeps {E = E} P (mint {O = O} f)
  unfolding mint
  Keeps-mint f = record { at = λ w h. h }

  pub Keeps-query : (e : E) (f : T → A) → Keeps {O = O} P (query e f)
  unfolding query
  Keeps-query e f = record { at = λ w h. ground (arith, h) }

  pub Keeps-outside : (e : E) (f : O → Option A × O) → Keeps P (call_outside e f)
  unfolding call_outside
  Keeps-outside e f = record { at = λ w h. h }

  pub Keeps-statement :
      (e : E) (f : T → Result E A × T)
      → ((t : T) → P t → P (f t).1)
      → Keeps {O = O} P (statement e f)
  unfolding statement
  Keeps-statement e f k = record {
    at = λ w h. elim (Bool-cases (next_fault w.faults)) [
      | inl fails ↦ rw fails h
      | inr runs ↦ rw runs (k w.tables h)
    ];
  }

  pub Keeps-if :
      (test : Bool) (left right : Action (World T O) E A)
      → (test ≡ true → Keeps P left)
      → (test ≡ false → Keeps P right)
      → Keeps P (if test then left else right)
  Keeps-if true left right when_true when_false = when_true refl
  Keeps-if false left right when_true when_false = when_false refl

module _ {ℓ} {T O E A B : Type ℓ} {P : T → Type ℓ} where
  pub Keeps-on_row :
      (o : Option B) (m : Action (World T O) E A) (f : B → Action (World T O) E A)
      → Keeps P m
      → ((b : B) → o ≡ some b → Keeps P (f b))
      → Keeps P (on_row o m f)
  Keeps-on_row none m f km kf = km
  Keeps-on_row (some b) m f km kf = kf b refl

  continue-keeps :
      (f : A → Action (World T O) E B)
      → ((a : A) → Keeps P (f a))
      → (r : Result E A) (w : World T O) → P w.tables
      → P (continue r f w).1.tables
  continue-keeps f kf (ok a) w h = (kf a).at w h
  continue-keeps f kf (err e) w h = h

  pub Keeps-bind :
      (m : Action (World T O) E A) (f : A → Action (World T O) E B)
      → Keeps P m
      → ((a : A) → Keeps P (f a))
      → Keeps P (m >>= f)
  unfolding ◌>>=◌
  Keeps-bind m f km kf = record { at = λ w h. continue-keeps f kf (m w).0 (m w).1 (km.at w h) }

  -- The rest of the block may use that a check did not fail.
  pub Keeps-bind_lift :
      (r : Result E A) (f : A → Action (World T O) E B)
      → ((a : A) → r ≡ ok a → Keeps P (f a))
      → Keeps P (lift r >>= f)
  unfolding ◌>>=◌
  Keeps-bind_lift (ok a) f kf = record { at = λ w h. (kf a refl).at w h }
  Keeps-bind_lift (err e) f kf = record { at = λ w h. h }

  resume-keeps :
      (f : A → Action (World T O) E B) (g : E → Action (World T O) E B)
      → ((a : A) → Keeps P (f a))
      → ((e : E) → Keeps P (g e))
      → (r : Result E A) (w : World T O) → P w.tables
      → P (resume f g r w).1.tables
  resume-keeps f g kf kg (ok a) w h = (kf a).at w h
  resume-keeps f g kf kg (err e) w h = (kg e).at w h

  pub Keeps-handle :
      (m : Action (World T O) E A) (f : A → Action (World T O) E B) (g : E → Action (World T O) E B)
      → Keeps P m
      → ((a : A) → Keeps P (f a))
      → ((e : E) → Keeps P (g e))
      → Keeps P (handle m f g)
  unfolding handle
  Keeps-handle m f g km kf kg = record {
    at = λ w h. resume-keeps f g kf kg (m w).0 (m w).1 (km.at w h);
  }

module _ {ℓ} {T O E F A : Type ℓ} {P : T → Type ℓ} where
  pub Keeps-map_err : (f : E → F) (m : Action (World T O) E A) → Keeps P m → Keeps P (map_err f m)
  unfolding map_err
  Keeps-map_err f m km = record { at = λ w h. km.at w h }

module _ {ℓ} {T O E A : Type ℓ} where
  rollback-keeps :
      (P : T → Type ℓ) (t : T) (r : Result E A × World T O)
      → P t
      → P r.1.tables
      → P (rollback t r).1.tables
  rollback-keeps P t (ok a, w) p h = h
  rollback-keeps P t (err e, w) p h = p

  in_transaction-Keeps :
      {P : T → Type ℓ} (e : E) (m : Action (World T O) E A)
      → Keeps P m
      → Keeps P (in_transaction e m)
  unfolding in_transaction
  in_transaction-Keeps e m km =
      Keeps-bind _ _ (Keeps-query e (λ t. t)) λ _.
        Keeps-bind _ _ km λ a. Keeps-bind {A = T} _ _ (Keeps-query e (λ t. t)) λ _. Keeps-pure a

  pub Keeps-transaction :
      {P : T → Type ℓ} (e : E) (m : Action (World T O) E A) → Keeps P m → Keeps P (transaction e m)
  unfolding transaction
  Keeps-transaction {P} e m km = record {
    at = λ w h.
        rollback-keeps P w.tables (in_transaction e m w) h ((in_transaction-Keeps e m km).at w h);
  }

  rollback-err :
      (t : T) (r : Result E A × World T O) {x : E}
      → (rollback t r).0 ≡ err x
      → (rollback t r).1.tables ≡ t
  rollback-err t (ok a, v) h = absurd (cc)
  rollback-err t (err x, v) h = refl

  -- Whatever goes wrong in a transaction, its tables are those before it.
  pub transaction-err :
      (e : E) (m : Action (World T O) E A) (w : World T O) {x : E}
      → (transaction e m w).0 ≡ err x
      → (transaction e m w).1.tables ≡ w.tables
  unfolding transaction
  transaction-err e m w h = rollback-err w.tables (in_transaction e m w) h

module _ {ℓ} {T O E A : Type ℓ} where
  -- A statement that returns has run.
  pub statement-eq-ok :
      (e : E) (f : T → Result E A × T) (w v : World T O) (a : A)
      → statement e f w ≡ (ok a, v)
      → f w.tables ≡ (ok a, v.tables)
  unfolding statement
  statement-eq-ok e f w v a h = elim (Bool-cases (next_fault w.faults)) [
    | inl fails ↦ absurd (ground (arith, h, fails))
    | inr runs ↦ ground (arith, h, runs)
  ]

  -- With no fault to come a statement is its function.
  pub statement_calm :
      (e : E) (f : T → Result E A × T) (w : World T O) {r : Result E A} {t : T}
      → w.faults ≡ []
      → f w.tables ≡ (r, t)
      → statement e f w ≡ (r, record w { tables = t })
  unfolding statement
  statement_calm e f w calm h = ground (arith, calm, h)

  -- A query that returns has read the tables and left them.
  pub query-eq-ok :
      (e : E) (f : T → A) (w v : World T O) (a : A)
      → query e f w ≡ (ok a, v)
      → (a ≡ f w.tables) × (v.tables ≡ w.tables)
  unfolding query
  query-eq-ok e f w v a h =
      let ran = statement-eq-ok e (λ t. (ok (f t), t)) w v a h in
      (ground (arith, ran), ground (arith, ran))

module _ {ℓ} {T O E A : Type ℓ} where
  in_transaction-eq-ok :
      (e : E) (m : Action (World T O) E A) (w v : World T O) (a : A)
      → in_transaction e m w ≡ (ok a, v)
      → (u x : World T O) × (u.tables ≡ w.tables) × (m u ≡ (ok a, x)) × (x.tables ≡ v.tables)
  unfolding in_transaction
  in_transaction-eq-ok e m w v a h =
      let (t, u, started, h1) = bind-eq-ok _ _ w h in
      let (b, x, ran, h2) = bind-eq-ok _ _ u h1 in
      let (t', y, ended, h3) = bind-eq-ok (query {T = T} {E = E} e (λ y. y)) (λ _. pure b) x h2 in
      let (same, final) = pure-eq-ok b y h3 in
      (
        u,
        x,
        (query-eq-ok e (λ y. y) w u t started).1,
        subst (λ c. m u ≡ (ok c, x)) same ran,
        sym (query-eq-ok e (λ y. y) x y t' ended).1 ∙ ap (λ (z : World T O). z.tables) final,
      )

  rollback-eq-ok :
      (t : T) (r : Result E A × World T O) {a : A} {v : World T O}
      → rollback t r ≡ (ok a, v)
      → r ≡ (ok a, v)
  rollback-eq-ok t (ok b, w) h = h
  rollback-eq-ok t (err x, w) h = absurd (ground (arith, h))

  -- A transaction that returns has run its body on the tables before it and left those after it.
  pub transaction-eq-ok :
      (e : E) (m : Action (World T O) E A) (w v : World T O) (a : A)
      → transaction e m w ≡ (ok a, v)
      → (u x : World T O) × (u.tables ≡ w.tables) × (m u ≡ (ok a, x)) × (x.tables ≡ v.tables)
  unfolding transaction
  transaction-eq-ok e m w v a h =
      in_transaction-eq-ok e m w v a (rollback-eq-ok w.tables (in_transaction e m w) h)

module _ {ℓ} {T O E A : Type ℓ} where
  pub query_calm :
      (e : E) (f : T → A) (w : World T O) → w.faults ≡ [] → query e f w ≡ (ok (f w.tables), w)
  unfolding query statement
  query_calm e f w calm = ground (arith, calm)

module _ {ℓ} {T O E A : Type ℓ} where
  in_transaction_calm :
      (e : E) (m : Action (World T O) E A) (w v : World T O) (a : A)
      → w.faults ≡ []
      → m w ≡ (ok a, v)
      → v.faults ≡ []
      → in_transaction e m w ≡ (ok a, v)
  unfolding in_transaction
  in_transaction_calm e m w v a calm ran still =
      bind_of_ok _ _ (query_calm e (λ t. t) w calm)
      ∙ bind_of_ok m _ ran
      ∙ bind_of_ok (query {T = T} {E = E} e (λ t. t)) (λ _. pure a) (query_calm e (λ t. t) v still)
      ∙ pure_lem a v

  -- With no fault to come, a transaction whose body returns is its body.
  pub transaction_calm :
      (e : E) (m : Action (World T O) E A) (w v : World T O) (a : A)
      → w.faults ≡ []
      → m w ≡ (ok a, v)
      → v.faults ≡ []
      → transaction e m w ≡ (ok a, v)
  unfolding transaction
  transaction_calm e m w v a calm ran still =
      ap (rollback w.tables) (in_transaction_calm e m w v a calm ran still)

pub ruleset keeps_rules = (
  Keeps-pure, Keeps-fail, Keeps-lift, Keeps-gets, Keeps-mint, Keeps-query, Keeps-outside, Keeps-if,
  Keeps-on_row, Keeps-bind, Keeps-handle, Keeps-transaction, Keeps-map_err,
)
