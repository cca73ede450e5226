-- ===== src/Transactions.antt =====
-- A database transaction (`transaction.atomic`) as a function of the state: an error gives no new
-- state, since the transaction is rolled back.
use research_desk.Prelude.{◌≡◌, refl, Bool, true, false, Option, none, some}

pub data Result (E A : Type 0) : Type 0 where
  ok : A → Result E A
  err : E → Result E A

abbrev pub Transaction : Type 0 → Type 0 → Type 0 → Type 0
Transaction S E A = S → Result E (A × S)

module _ {S E : Type 0} where
  abbrev pub pure : {A : Type 0} → A → Transaction S E A
  pure a s = ok (a, s)

  infixl 5 ◌>>=◌ ◌>>◌
  abbrev pub ◌>>=◌ :
      {A B : Type 0} → Transaction S E A → (A → Transaction S E B) → Transaction S E B
  ◌>>=◌ m f s = elim (m s) [ ok (a, s') ↦ f a s' | err e ↦ err e ]

  abbrev pub ◌>>◌ :
      {B : Type 0} → Transaction S E (Unit {0}) → Transaction S E B → Transaction S E B
  m >> k = m >>= λ _. k

  abbrev pub gets : {A : Type 0} → (S → A) → Transaction S E A
  gets f s = ok (f s, s)

  abbrev pub modify : (S → S) → Transaction S E (Unit {0})
  modify f s = ok (tt, f s)

  -- `if test: raise`.
  abbrev pub raise_if : Bool → E → Transaction S E (Unit {0})
  raise_if true e s = err e
  raise_if false e s = ok (tt, s)

  abbrev pub or_raise : {A : Type 0} → Option A → E → Transaction S E A
  or_raise none e s = err e
  or_raise (some a) e s = ok (a, s)

  -- What a transaction that succeeded went through: its first part, and the rest after it.
  pub bind-eq-ok :
      {A B : Type 0} (m : Transaction S E A) (f : A → Transaction S E B) (s : S) {b : B} {s'' : S}
      → (m >>= f) s ≡ ok (b, s'')
      → (a : A) × (s' : S) × (m s ≡ ok (a, s')) × (f a s' ≡ ok (b, s''))
  bind-eq-ok {A} {B} m f s {b} {s''} h = go (m s) refl h
    where
      go :
          (r : Result E (A × S))
          → m s ≡ r
          → elim r [ ok (a, s') ↦ f a s' | err e ↦ err e ] ≡ ok (b, s'')
          → (a : A) × (s' : S) × (m s ≡ ok (a, s')) × (f a s' ≡ ok (b, s''))
      go (ok (a, s')) e k = (a, s', e, k)
      go (err x) e k = cc

  -- A check that was passed, and a row that was there.
  pub check-eq-ok :
      {B : Type 0} (test : Bool) (e : E) (k : Transaction S E B) (s : S) {b : B} {s' : S}
      → (raise_if test e >> k) s ≡ ok (b, s')
      → (test ≡ false) × (k s ≡ ok (b, s'))
  check-eq-ok true e k s h = cc
  check-eq-ok false e k s h = (refl, h)

  pub found-eq-ok :
      {A B : Type 0} (o : Option A) (e : E) (f : A → Transaction S E B) (s : S) {b : B} {s' : S}
      → (or_raise o e >>= f) s ≡ ok (b, s')
      → (a : A) × (o ≡ some a) × (f a s ≡ ok (b, s'))
  found-eq-ok none e f s h = cc
  found-eq-ok (some a) e f s h = (a, refl, h)

  -- The other way round: a part whose result is known, and a row that is there.
  pub bind-step :
      {A B : Type 0} (m : Transaction S E A) (f : A → Transaction S E B) (s : S) {a : A} {s' : S}
      → m s ≡ ok (a, s')
      → (m >>= f) s ≡ f a s'
  bind-step m f s h = rw (h, ◌>>=◌) refl

  pub found-step :
      {A B : Type 0} (o : Option A) (e : E) (f : A → Transaction S E B) (s : S) {a : A}
      → o ≡ some a
      → (or_raise o e >>= f) s ≡ f a s
  found-step o e f s h = rw (h, ◌>>=◌) refl

  pub check-step :
      {B : Type 0} (test : Bool) (e : E) (k : Transaction S E B) (s : S)
      → test ≡ false
      → (raise_if test e >> k) s ≡ k s
  check-step test e k s h = rw (h, ◌>>=◌) refl

  pub check-fails :
      {B : Type 0} (test : Bool) (e : E) (k : Transaction S E B) (s : S)
      → test ≡ true
      → (raise_if test e >> k) s ≡ err e
  check-fails test e k s h = rw (h, ◌>>=◌) refl
