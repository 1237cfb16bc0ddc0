-- ===== src/World/Laws.antt =====
-- Inversion of successful runs.
use external_signature_progr.Base.{◌≡◌, refl, sym, ap}
use mathlib.Core.Path.{subst}
use external_signature_progr.Errors.{Result, ok, err, panic}
use external_signature_progr.Errors.Laws.{ok-injective}
use external_signature_progr.Runtime.{Accounts}
use external_signature_progr.World.{World, M, ◌>>=◌, lift, pure, run}

-- A run that succeeded: its first step did, and so did the rest from where that stopped.
pub bind-eq-ok :
    {A B : Type 0} (m : M A) (f : A → M B) (w : World) {b : B} {w' : World}
    → (m >>= f) w ≡ ok (b, w')
    → (a : A) × (v : World) × (m w ≡ ok (a, v)) × (f a v ≡ ok (b, w'))
bind-eq-ok {A} {B} m f w {b} {w'} h = go (m w) refl h
  where
    go :
        (r : Result (A × World))
        → m w ≡ r
        → elim r as (λ _. Result (B × World)) [ ok p ↦ f p.0 p.1 | err e ↦ err e | panic ↦ panic ]
          ≡ ok (b, w')
        → (a : A) × (v : World) × (m w ≡ ok (a, v)) × (f a v ≡ ok (b, w'))
    go (ok p) e k = (p.0, p.1, e, k)
    go (err x) e k = cc
    go panic e k = cc

-- A lifted result succeeds without touching the state.
pub lift-eq-ok :
    {A : Type 0} (r : Result A) (w : World) {a : A} {w' : World}
    → lift r w ≡ ok (a, w')
    → (r ≡ ok a) × (w ≡ w')
lift-eq-ok (ok a) w h = (cc, cc)
lift-eq-ok (err e) w h = cc
lift-eq-ok panic w h = cc

-- The same where the first step is lifted, or leaves the world alone.
pub bind-lift-eq-ok :
    {A B : Type 0} (r : Result A) (f : A → M B) (w : World) {b : B} {w' : World}
    → (lift r >>= f) w ≡ ok (b, w')
    → (a : A) × (r ≡ ok a) × (f a w ≡ ok (b, w'))
bind-lift-eq-ok (ok a) f w h = (a, refl, h)
bind-lift-eq-ok (err e) f w h = cc
bind-lift-eq-ok panic f w h = cc

pub bind-reads-eq-ok :
    {A B : Type 0} (m : M A) (f : A → M B) (w : World) {b : B} {w' : World}
    → ((a : A) (v : World) → m w ≡ ok (a, v) → w ≡ v)
    → (m >>= f) w ≡ ok (b, w')
    → (a : A) × (m w ≡ ok (a, w)) × (f a w ≡ ok (b, w'))
bind-reads-eq-ok m f w {b} {w'} reads h =
    let (a, v, e, k) = bind-eq-ok m f w h in
    let same : w ≡ v = reads a v e in
    (a, subst (λ x. m w ≡ ok (a, x)) (sym same) e, subst (λ x. f a x ≡ ok (b, w')) (sym same) k)

pub pure-eq-ok :
    {A : Type 0} (a : A) (w : World) {b : A} {w' : World}
    → pure a w ≡ ok (b, w')
    → (a ≡ b) × (w ≡ w')
pure-eq-ok a w {b} h = let (e, same) = lift-eq-ok (ok a) w h in (ok-injective a b e, same)

-- A call that changes the accounts, and what follows it.
pub bind-run-eq-ok :
    {B : Type 0} (f : Accounts → Result Accounts) (k : Unit {0} → M B) (w : World) {b : B}
    {w' : World}
    → (run f >>= k) w ≡ ok (b, w')
    → (a : Accounts) × (f w.accounts ≡ ok a) × (k tt (record w { accounts = a }) ≡ ok (b, w'))
bind-run-eq-ok {B} f k w {b} {w'} h = go (f w.accounts) refl h
  where
    go :
        (r : Result Accounts)
        → f w.accounts ≡ r
        → elim (elim r as (λ _. Result (Unit {0} × World)) [
          | ok a ↦ ok (tt, record w { accounts = a })
          | err e ↦ err e
          | panic ↦ panic
        ])
            as (λ _. Result (B × World)) [ ok p ↦ k p.0 p.1 | err e ↦ err e | panic ↦ panic ]
          ≡ ok (b, w')
        → (a : Accounts) × (f w.accounts ≡ ok a) × (k tt (record w { accounts = a }) ≡ ok (b, w'))
    go (ok a) e q = (a, e, q)
    go (err x) e q = cc
    go panic e q = cc

-- A chain goes on from a step that succeeded.
pub bind-ok :
    {A B : Type 0} (m : M A) (f : A → M B) (w : World) {a : A} {v : World}
    → m w ≡ ok (a, v)
    → (m >>= f) w ≡ f a v
bind-ok {A} {B} m f w e =
    ap
      (λ r. elim r as (λ _. Result (B × World)) [
        | ok p ↦ f p.0 p.1
        | err x ↦ err x
        | panic ↦ panic
      ])
      e

pub bind-lift-ok :
    {A B : Type 0} (r : Result A) (f : A → M B) (w : World) {a : A}
    → r ≡ ok a
    → (lift r >>= f) w ≡ f a w
bind-lift-ok r f w e = bind-ok (lift r) f w (ap (λ q. lift q w) e)
