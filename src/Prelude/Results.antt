-- ===== src/Prelude/Results.antt =====
-- Outcomes of C code: a value, a failed `SAFE_ASSERT` (which aborts the process), or a use of memory
-- that C leaves undefined (a read out of bounds or through a freed or null pointer).
use mathlib.Core.Path.{◌≡◌, refl}
use mathlib.Core.Bool.{Bool, true, false}
use mathlib.Core.Option.{Option, none, some}

infixl 5 ◌>>=◌ ◌>>◌
pub data Result {ℓ} (A : Type ℓ) : Type ℓ where
  fault : Result A
  abort : Result A
  ok : A → Result A

-- `SAFE_ASSERT(b)`
abbrev pub safe_assert : Bool → Result (Unit {0})
safe_assert false = abort
safe_assert true = ok tt

-- A read through a pointer that may be null or freed.
abbrev pub deref {ℓ} : {A : Type ℓ} → Option A → Result A
deref (some a) = ok a
deref none = fault

pub deref_ok {ℓ} : {A : Type ℓ} (o : Option A) {a : A} → deref o ≡ ok a → o ≡ some a
deref_ok none e = cc
deref_ok (some b) e = cc

-- What follows runs only after a value.
abbrev pub ◌>>=◌ {κ μ} : {X : Type κ} {Y : Type μ} → Result X → (X → Result Y) → Result Y
fault >>= next = fault
abort >>= next = abort
ok x >>= next = next x

abbrev pub ◌>>◌ {μ} : {Y : Type μ} → Result (Unit {0}) → Result Y → Result Y
first >> second = first >>= λ done. second

pub >>=-eq-ok {κ μ} :
    {X : Type κ} {Y : Type μ} (run : Result X) (next : X → Result Y) {y : Y}
    → (run >>= next) ≡ ok y
    → (x : X) × (run ≡ ok x) × (next x ≡ ok y)
>>=-eq-ok fault next e = cc
>>=-eq-ok abort next e = cc
>>=-eq-ok (ok x) next e = (x, refl, e)

pub ok-injective {ℓ} : {A : Type ℓ} {x y : A} → ok x ≡ ok y → x ≡ y
ok-injective e = cc

pub >>=_assoc {ℓ κ μ} :
    {A : Type ℓ} {B : Type κ} {C : Type μ} (r : Result A) (f : A → Result B) (g : B → Result C)
    → ((r >>= f) >>= g) ≡ (r >>= λ a. f a >>= g)
>>=_assoc fault f g = refl
>>=_assoc abort f g = refl
>>=_assoc (ok a) f g = refl

pub >>=_cong {ℓ κ} :
    {A : Type ℓ} {B : Type κ} (r : Result A) {f g : A → Result B}
    → ((a : A) → f a ≡ g a)
    → (r >>= f) ≡ (r >>= g)
>>=_cong fault same = refl
>>=_cong abort same = refl
>>=_cong (ok a) same = same a
