-- ===== src/Catalogues/Model/Inversion.antt =====
-- What a transaction that succeeded went through.
use mathlib.Core.Path.{subst}
use research_desk.Prelude.{◌≡◌, refl, Bool, true, false, Option, none, some, arith}
use research_desk.Catalogues.Model.{
  Db, Error, Result, ok, err, Transaction, raise_if, or_raise, ◌>>=◌, ◌>>◌,
}

pub >>=-eq-ok :
    {A B : Type 0} (m : Transaction A) (f : A → Transaction B) (db : Db) {b : B} {db'' : Db}
    → (m >>= f) db ≡ ok (b, db'')
    → (a : A) × (db' : Db) × (m db ≡ ok (a, db')) × (f a db' ≡ ok (b, db''))
>>=-eq-ok {A} {B} m f db {b} {db''} h = go (m db) refl h
  where
    go :
        (r : Result (A × Db))
        → m db ≡ r
        → elim r [ ok (a, db') ↦ f a db' | err e ↦ err e ] ≡ ok (b, db'')
        → (a : A) × (db' : Db) × (m db ≡ ok (a, db')) × (f a db' ≡ ok (b, db''))
    go (ok (a, db')) e k = (a, db', e, k)
    go (err x) e k = cc

pub raise_if-eq-ok :
    (test : Bool) (e : Error) (db : Db) {w : Unit {0}} {db' : Db}
    → raise_if test e db ≡ ok (w, db')
    → (test ≡ false) × (db' ≡ db)
raise_if-eq-ok true e db h = cc
raise_if-eq-ok false e db h = (refl, ground arith)

pub or_raise-eq-ok :
    {A : Type 0} (o : Option A) (e : Error) (db : Db) {a : A} {db' : Db}
    → or_raise o e db ≡ ok (a, db')
    → (o ≡ some a) × (db' ≡ db)
or_raise-eq-ok none e db h = cc
or_raise-eq-ok (some x) e db h = (ground arith, ground arith)

-- A check and what follows it.
pub guard-eq-ok :
    {B : Type 0} (test : Bool) (e : Error) (k : Transaction B) (db : Db) {b : B} {db' : Db}
    → (raise_if test e >> k) db ≡ ok (b, db')
    → (test ≡ false) × (k db ≡ ok (b, db'))
guard-eq-ok true e k db h = cc
guard-eq-ok false e k db h = (refl, h)

-- A transaction that only reads: it leaves the database as it is.
abbrev pub ReadsAt : {A : Type 0} → Transaction A → Db → Type 0
ReadsAt {A} m db = (a : A) (db' : Db) → m db ≡ ok (a, db') → db' ≡ db

-- What followed a transaction that only reads.
pub read-eq-ok :
    {A B : Type 0} (m : Transaction A) (f : A → Transaction B) (db : Db) {b : B} {db'' : Db}
    → ReadsAt m db
    → (m >>= f) db ≡ ok (b, db'')
    → (a : A) × (m db ≡ ok (a, db)) × (f a db ≡ ok (b, db''))
read-eq-ok m f db {b} {db''} reads h =
    let (a, db', p, q) = >>=-eq-ok m f db h in
    let same = reads a db' p in
    (
      a,
      subst (λ (d : Db). m db ≡ ok (a, d)) same p,
      subst (λ (d : Db). f a d ≡ ok (b, db'')) same q,
    )

-- The other way round: a step whose result is known.
pub >>=-step :
    {A B : Type 0} (m : Transaction A) (f : A → Transaction B) (db : Db) {a : A} {db' : Db}
    → m db ≡ ok (a, db')
    → (m >>= f) db ≡ f a db'
>>=-step m f db h = rw (h, ◌>>=◌)
