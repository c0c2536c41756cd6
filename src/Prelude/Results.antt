-- ===== src/Prelude/Results.antt =====
-- Go's `(value, error)` results. `err` carries the constant text of the message, and `panic`
-- stands for a run-time panic, such as a read through a nil pointer.
use Prim.Native.String
use Prim.Native.String.{String}
use mathlib.Core.Path.{◌≡◌, refl}

pub data Result {ℓ} (Answer : Type ℓ) : Type ℓ where
  panic : Result Answer
  ok : Answer → Result Answer
  err : String → Result Answer

infixl 5 ◌>>=◌ ◌>>◌
abbrev pub ◌>>=◌ {ℓ κ} :
    {A : Type ℓ} {B : Type κ} (first : Result A) (next : A → Result B) → Result B
panic >>= next = panic
ok a >>= next = next a
err message >>= next = err message

abbrev pub ◌>>◌ {ℓ} : {B : Type ℓ} (first : Result (Unit {0})) (next : Result B) → Result B
first >> next = first >>= λ _. next

-- `fmt.Errorf(prefix + "%w", err)` on the error path.
abbrev pub wrap {ℓ} : {A : Type ℓ} → String → Result A → Result A
wrap prefix (ok a) = ok a
wrap prefix (err e) = err (String.◌++◌ prefix e)
wrap prefix panic = panic

-- The state and the answer after a write: a write that fails leaves the state as it was.
abbrev pub attempt {ℓ} : {S : Type ℓ} → S → Result S → S × Result (Unit {0})
attempt s (ok s') = (s', ok tt)
attempt s (err e) = (s, err e)
attempt s panic = (s, panic)

-- A successful bind ran both its parts.
pub >>=-eq-ok {ℓ κ} :
    {A : Type ℓ} {B : Type κ} (first : Result A) (next : A → Result B) {answer : B}
    → (first >>= next) ≡ ok answer
    → (a : A) × (first ≡ ok a) × (next a ≡ ok answer)
>>=-eq-ok panic next run = cc
>>=-eq-ok (err message) next run = cc
>>=-eq-ok (ok a) next run = (a, refl, run)

pub wrap-eq-ok {ℓ} :
    {A : Type ℓ} (prefix : String) (m : Result A) {a : A} → wrap prefix m ≡ ok a → m ≡ ok a
wrap-eq-ok prefix (ok a) h = h
wrap-eq-ok prefix (err e) h = cc
wrap-eq-ok prefix panic h = cc

pub ok-inj {ℓ} : {A : Type ℓ} {a b : A} → Path (Result A) (ok a) (ok b) → a ≡ b
ok-inj h = cc
