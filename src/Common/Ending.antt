-- ===== src/Common/Ending.antt =====
-- How a handler can end: with a result, in `std::exit(EXIT_FAILURE)`, in a loop that never ends, or
-- in undefined behaviour (a null or dangling pointer, an empty queue).
use mathlib.Core.Path.{◌≡◌, refl, subst}
use mathlib.Core.Option.{Option, none, some}

pub data Outcome {ℓ} (A : Type ℓ) : Type ℓ where
  ok : A → Outcome A
  exited : Outcome A
  hung : Outcome A
  fault : Outcome A

-- The next step runs on the result of the one before, if there is one.
infixl 4 ◌>>=◌
abbrev pub ◌>>=◌ {ℓ κ} :
    {Result : Type ℓ} {Next : Type κ} → Outcome Result → (Result → Outcome Next) → Outcome Next
fault >>= next = fault
hung >>= next = hung
exited >>= next = exited
ok result >>= next = next result

-- Reading through a pointer.
abbrev pub or_fault {ℓ} : {A : Type ℓ} → Option A → Outcome A
or_fault none = fault
or_fault (some a) = ok a

abbrev pub or_exit {ℓ} : {A : Type ℓ} → Option A → Outcome A
or_exit none = exited
or_exit (some a) = ok a

-- The handler ends with a result that has the property.
abbrev pub Returns {ℓ} : {A : Type ℓ} → (A → Type 0) → Outcome A → Type 0
Returns P (ok a) = P a
Returns P exited = ⊥
Returns P hung = ⊥
Returns P fault = ⊥

pub >>=-Returns {ℓ κ} :
    {A : Type ℓ} {B : Type κ} (P : A → Type 0) (Q : B → Type 0) (m : Outcome A) (f : A → Outcome B)
    → Returns P m
    → ((a : A) → P a → Returns Q (f a))
    → Returns Q (m >>= f)
>>=-Returns P Q (ok a) f h k = k a h
>>=-Returns P Q exited f h k = h
>>=-Returns P Q hung f h k = h
>>=-Returns P Q fault f h k = h

pub Returns-map {ℓ} :
    {A : Type ℓ} (P Q : A → Type 0) (m : Outcome A)
    → ((a : A) → P a → Q a)
    → Returns P m
    → Returns Q m
Returns-map P Q fault k h = h
Returns-map P Q hung k h = h
Returns-map P Q exited k h = h
Returns-map P Q (ok a) k h = k a h

-- The result of a handler that ends with one.
pub Returns-ok {ℓ} :
    {A : Type ℓ} (P : A → Type 0) (m : Outcome A) → Returns P m → (a : A) × (m ≡ ok a) × P a
Returns-ok P (ok a) h = (a, refl, h)
Returns-ok P exited h = elim h [ ]
Returns-ok P hung h = elim h [ ]
Returns-ok P fault h = elim h [ ]

pub >>=-eta {ℓ} : {A : Type ℓ} (m : Outcome A) → (m >>= ok) ≡ m
>>=-eta (ok a) = refl
>>=-eta exited = refl
>>=-eta hung = refl
>>=-eta fault = refl

pub >>=-eq-ok {ℓ κ} :
    {A : Type ℓ} {B : Type κ} (m : Outcome A) (f : A → Outcome B) {b : B}
    → (m >>= f) ≡ ok b
    → (a : A) × (m ≡ ok a) × (f a ≡ ok b)
>>=-eq-ok (ok a) f e = (a, refl, e)
>>=-eq-ok exited f e = absurd (cc)
>>=-eq-ok hung f e = absurd (cc)
>>=-eq-ok fault f e = absurd (cc)

-- Where the handler ends with a result, the result has the property.
abbrev pub Whenever {ℓ} : {A : Type ℓ} → (A → Type 0) → Outcome A → Type 0
Whenever P (ok a) = P a
Whenever P exited = Unit
Whenever P hung = Unit
Whenever P fault = Unit

pub >>=-Whenever {ℓ κ} :
    {A : Type ℓ} {B : Type κ} (P : A → Type 0) (Q : B → Type 0) (m : Outcome A) (f : A → Outcome B)
    → Whenever P m
    → ((a : A) → P a → Whenever Q (f a))
    → Whenever Q (m >>= f)
>>=-Whenever P Q (ok a) f h k = k a h
>>=-Whenever P Q exited f h k = tt
>>=-Whenever P Q hung f h k = tt
>>=-Whenever P Q fault f h k = tt

-- A read through a pointer gives what the pointer holds.
pub or_fault-Whenever {ℓ κ} :
    {A : Type ℓ} {B : Type κ} (Q : B → Type 0) (x : Option A) (f : A → Outcome B)
    → ((a : A) → x ≡ some a → Whenever Q (f a))
    → Whenever Q (or_fault x >>= f)
or_fault-Whenever Q none f k = tt
or_fault-Whenever Q (some a) f k = k a refl

pub Whenever-ok {ℓ} :
    {A : Type ℓ} (P : A → Type 0) (m : Outcome A) {a : A} → Whenever P m → m ≡ ok a → P a
Whenever-ok P (ok a) h e = subst (Whenever P) e h
Whenever-ok P exited h e = absurd (cc)
Whenever-ok P hung h e = absurd (cc)
Whenever-ok P fault h e = absurd (cc)

pub Whenever-any {ℓ} : {A : Type ℓ} (m : Outcome A) → Whenever (λ (a : A). Unit) m
Whenever-any (ok a) = tt
Whenever-any exited = tt
Whenever-any hung = tt
Whenever-any fault = tt

pub Whenever-map {ℓ} :
    {A : Type ℓ} (P Q : A → Type 0) (m : Outcome A)
    → ((a : A) → P a → Q a)
    → Whenever P m
    → Whenever Q m
Whenever-map P Q (ok a) k h = k a h
Whenever-map P Q exited k h = tt
Whenever-map P Q hung k h = tt
Whenever-map P Q fault k h = tt

-- The handler does not end in undefined behaviour, and a result of it has the property.
abbrev pub Safe {ℓ} : {A : Type ℓ} → (A → Type 0) → Outcome A → Type 0
Safe P (ok a) = P a
Safe P exited = Unit
Safe P hung = Unit
Safe P fault = ⊥

pub >>=-Safe {ℓ κ} :
    {A : Type ℓ} {B : Type κ} (P : A → Type 0) (Q : B → Type 0) (m : Outcome A) (f : A → Outcome B)
    → Safe P m
    → ((a : A) → P a → Safe Q (f a))
    → Safe Q (m >>= f)
>>=-Safe P Q (ok a) f h k = k a h
>>=-Safe P Q exited f h k = tt
>>=-Safe P Q hung f h k = tt
>>=-Safe P Q fault f h k = h

-- A read through a pointer that is not null.
pub or_fault-Safe {ℓ κ} :
    {A : Type ℓ} {B : Type κ} (Q : B → Type 0) (x : Option A) (a : A) (f : A → Outcome B)
    → x ≡ some a
    → Safe Q (f a)
    → Safe Q (or_fault x >>= f)
or_fault-Safe Q none a f e h = absurd (cc)
or_fault-Safe Q (some b) a f e h = let same : a ≡ b = cc in subst (λ c. Safe Q (f c)) same h

-- What is known of the results, of a handler that is safe.
pub Safe-join {ℓ} :
    {A : Type ℓ} (P Q : A → Type 0) (m : Outcome A) → Whenever P m → Safe Q m → Safe P m
Safe-join P Q (ok a) w h = w
Safe-join P Q exited w h = tt
Safe-join P Q hung w h = tt
Safe-join P Q fault w h = h

pub Safe-map {ℓ} :
    {A : Type ℓ} (P Q : A → Type 0) (m : Outcome A) → ((a : A) → P a → Q a) → Safe P m → Safe Q m
Safe-map P Q (ok a) k h = k a h
Safe-map P Q exited k h = tt
Safe-map P Q hung k h = tt
Safe-map P Q fault k h = h

pub Safe-fault {ℓ} : {A : Type ℓ} (P : A → Type 0) (m : Outcome A) → Safe P m → m ≡ fault → ⊥
Safe-fault P (ok a) h e = cc
Safe-fault P exited h e = cc
Safe-fault P hung h e = cc
Safe-fault P fault h e = h
