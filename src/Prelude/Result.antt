-- ===== src/Prelude/Result.antt =====
-- How a C function ends: with a value, by a call of `error()`, which prints its message and ends the
-- process (vm/err.c), by an access outside an object, which C leaves undefined, or not within the fuel.
use littlesmalltalk.Prelude.{◌≡◌, refl, Option, none, some}

pub data Result {ℓ} (A : Type ℓ) : Type ℓ where
  ok : A → Result A
  error : Result A
  fault : Result A
  out_of_fuel : Result A

-- What follows runs only where the first part returns.
infixl 5 ◌>>=◌
abbrev pub ◌>>=◌ {ℓ κ} :
    {A : Type ℓ} {B : Type κ} (first : Result A) (next : A → Result B) → Result B
error >>= next = error
fault >>= next = fault
out_of_fuel >>= next = out_of_fuel
ok x >>= next = next x

-- A read that is outside the object is undefined.
abbrev pub access {ℓ} : {A : Type ℓ} → Option A → Result A
access none = fault
access (some a) = ok a

-- A chain that returns went through its first part.
pub >>=-eq-ok {ℓ κ} :
    {A : Type ℓ} {B : Type κ} (first : Result A) (next : A → Result B) {value : B}
    → (first >>= next) ≡ ok value
    → (x : A) × (first ≡ ok x) × (next x ≡ ok value)
>>=-eq-ok error next returned = cc
>>=-eq-ok fault next returned = cc
>>=-eq-ok out_of_fuel next returned = cc
>>=-eq-ok (ok x) next returned = (x, refl, returned)

pub >>=-assoc {ℓ κ μ} :
    {A : Type ℓ} {B : Type κ} {C : Type μ} (m : Result A) (f : A → Result B) (g : B → Result C)
    → ((m >>= f) >>= g) ≡ (m >>= λ a. f a >>= g)
>>=-assoc (ok a) f g = refl
>>=-assoc error f g = refl
>>=-assoc fault f g = refl
>>=-assoc out_of_fuel f g = refl

pub access-ok {ℓ} : {A : Type ℓ} (o : Option A) {a : A} → access o ≡ ok a → o ≡ some a
access-ok none h = cc
access-ok (some a) h = cc

pub >>=-cong {ℓ κ} :
    {A : Type ℓ} {B : Type κ} (m : Result A) {f g : A → Result B}
    → ((a : A) → f a ≡ g a)
    → (m >>= f) ≡ (m >>= g)
>>=-cong (ok a) agree = agree a
>>=-cong error agree = refl
>>=-cong fault agree = refl
>>=-cong out_of_fuel agree = refl
