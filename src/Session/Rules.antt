-- ===== src/Session/Rules.antt =====
-- How a successful action is taken apart.
use mathlib.Core.Path.{subst}
use nexobank_backend.Base.{◌≡◌, refl, Bool, true, false, Option, none, some}
use nexobank_backend.Session.{Session, Error, Result, ok, err, Action, raise_if, or_raise, ◌>>=◌}

-- A block that returns has passed its first action.
pub >>=-ok :
    {A B : Type 0} (m : Action A) (f : A → Action B) (s : Session) {b : B} {t : Session}
    → (m >>= f) s ≡ (ok b, t)
    → (a : A) × (u : Session) × (m s ≡ (ok a, u)) × (f a u ≡ (ok b, t))
>>=-ok {A} {B} m f s {b} {t} h = go (m s) refl h
  where
    go :
        (r : Result A × Session)
        → m s ≡ r
        → (let (x, u) = r in elim x [ ok a ↦ f a u | err e ↦ (err e, u) ]) ≡ (ok b, t)
        → (a : A) × (u : Session) × (m s ≡ (ok a, u)) × (f a u ≡ (ok b, t))
    go (ok a, u) e k = (a, u, e, k)
    go (err x, u) e k = absurd (cc)

pub raise_if-ok :
    (test : Bool) (e : Error) (s : Session) {u : Unit {0}} {t : Session}
    → raise_if test e s ≡ (ok u, t)
    → (test ≡ false) × (t ≡ s)
raise_if-ok true e s h = absurd (cc)
raise_if-ok false e s h = (refl, cc)

pub or_raise-ok :
    {A : Type 0} (o : Option A) (e : Error) (s : Session) {a : A} {t : Session}
    → or_raise o e s ≡ (ok a, t)
    → (o ≡ some a) × (t ≡ s)
or_raise-ok none e s h = absurd (cc)
or_raise-ok (some a) e s h = (cc, cc)

-- The same for a first action that only looks: it has checked `Q`, and the rest starts where it did.
pub look-ok {ℓ} :
    {A B : Type 0} (Q : A → Type ℓ) (m : Action A) (f : A → Action B) (s : Session) {b : B}
    {t : Session}
    → ((a : A) (u : Session) → m s ≡ (ok a, u) → Q a × (u ≡ s))
    → (m >>= f) s ≡ (ok b, t)
    → (a : A) × Q a × (f a s ≡ (ok b, t))
look-ok Q m f s {b} {t} checks h =
    let (a, u, e, k) = >>=-ok m f s h in
    let (q, same) = checks a u e in (a, q, subst (λ v. f a v ≡ (ok b, t)) same k)
