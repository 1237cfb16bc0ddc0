-- ===== src/Errors/Laws.antt =====
-- Inversion of fallible code.
use external_signature_progr.Base.{ℕ, ◌-◌, ◌≤◌, Bool, true, false, ◌≡◌, refl, arith}
use external_signature_progr.Base.{Option, none, some, Bytes, length, take, drop}
use external_signature_progr.Errors.{ExternalSignatureProgramError, ProgramError, Result, ok, err}
use external_signature_progr.Errors.{panic, ◌>>=◌, require, assert, map_err, ok_or, unwrap, slice}

pub ok-injective {ℓ} : {A : Type ℓ} (a b : A) → ok a ≡ ok b → a ≡ b
ok-injective a b h = cc

-- A successful chain: its first step succeeded, and so did the rest.
pub >>=-eq-ok {ℓ κ} :
    {A : Type ℓ} {B : Type κ} (first : Result A) (next : A → Result B) {result : B}
    → (first >>= next) ≡ ok result
    → (value : A) × (first ≡ ok value) × (next value ≡ ok result)
>>=-eq-ok panic next e = cc
>>=-eq-ok (err reason) next e = cc
>>=-eq-ok (ok value) next e = (value, refl, e)

pub require-eq-ok :
    (b : Bool) (e : ExternalSignatureProgramError) {u : Unit {0}} → require b e ≡ ok u → b ≡ true
require-eq-ok true e h = refl
require-eq-ok false e h = cc

pub assert-eq-ok : (b : Bool) {u : Unit {0}} → assert b ≡ ok u → b ≡ true
assert-eq-ok true h = refl
assert-eq-ok false h = cc

pub map_err-eq-ok {ℓ} :
    {A : Type ℓ} (e : ProgramError) (m : Result A) {a : A} → map_err e m ≡ ok a → m ≡ ok a
map_err-eq-ok e (ok a) h = h
map_err-eq-ok e (err e') h = cc
map_err-eq-ok e panic h = cc

pub ok_or-eq-ok {ℓ} :
    {A : Type ℓ} (e : ProgramError) (o : Option A) {a : A} → ok_or e o ≡ ok a → o ≡ some a
ok_or-eq-ok e none h = cc
ok_or-eq-ok e (some a) h = cc

pub unwrap-eq-ok {ℓ} : {A : Type ℓ} (o : Option A) {a : A} → unwrap o ≡ ok a → o ≡ some a
unwrap-eq-ok none h = cc
unwrap-eq-ok (some a) h = cc

pub slice-eq-ok :
    (bs : Bytes) (from to : ℕ)
    → from ≤ to
    → to ≤ length bs
    → slice bs from to ≡ ok (take (to - from) (drop from bs))
unfolding slice
slice-eq-ok bs from to h k = ground arith

-- A chain whose first step succeeded is the rest.
pub >>=-ok {ℓ κ} :
    {A : Type ℓ} {B : Type κ} {m : Result A} (f : A → Result B) {a : A} → m ≡ ok a → (m >>= f) ≡ f a
>>=-ok f e = rw e
