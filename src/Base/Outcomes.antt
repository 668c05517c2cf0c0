-- ===== src/Base/Outcomes.antt =====
-- How a call of C code ends: with a value, by `exit(1)`, or in undefined behaviour (here: an access
-- outside an array).
use mathlib.Core.Path.{◌≡◌, refl}

pub data Outcome {ℓ} (A : Type ℓ) : Type ℓ where
  ok : A → Outcome A
  exited : Outcome A
  undefined : Outcome A

-- The next call runs on the value of one that returned.
infixl 5 ◌>>=◌
abbrev pub ◌>>=◌ {κ ℓ} :
    {A : Type κ} {B : Type ℓ} (call : Outcome A) (next : (a : A) → Outcome B) → Outcome B
undefined >>= next = undefined
exited >>= next = exited
ok value >>= next = next value

-- The call returns, and what it returns satisfies `P`.
abbrev pub Returns {ℓ} : {A : Type ℓ} → (A → Type 0) → Outcome A → Type 0
Returns P (ok a) = P a
Returns P exited = ⊥
Returns P undefined = ⊥

-- If the call returns, what it returns satisfies `P`: for what a call leaves alone.
abbrev pub Ensures {ℓ} : {A : Type ℓ} → (A → Type 0) → Outcome A → Type 0
Ensures P (ok a) = P a
Ensures P exited = Unit
Ensures P undefined = Unit

pub Ensures-mono {ℓ} :
    {A : Type ℓ} (P Q : A → Type 0) (m : Outcome A)
    → ((a : A) → P a → Q a)
    → Ensures P m
    → Ensures Q m
Ensures-mono P Q (ok a) k h = k a h
Ensures-mono P Q exited k h = tt
Ensures-mono P Q undefined k h = tt

pub Ensures-both {ℓ} :
    {A : Type ℓ} (P Q : A → Type 0) (m : Outcome A)
    → Ensures P m
    → Ensures Q m
    → Ensures (λ a. P a × Q a) m
Ensures-both P Q (ok a) h k = (h, k)
Ensures-both P Q exited h k = tt
Ensures-both P Q undefined h k = tt

pub >>=-Ensures {ℓ κ} :
    {A : Type ℓ} {B : Type κ} (P : A → Type 0) (Q : B → Type 0) (m : Outcome A) (f : A → Outcome B)
    → Ensures P m
    → ((a : A) → P a → Ensures Q (f a))
    → Ensures Q (m >>= f)
>>=-Ensures P Q (ok a) f h k = k a h
>>=-Ensures P Q exited f h k = tt
>>=-Ensures P Q undefined f h k = tt

pub Ensures-any {ℓ} : {A : Type ℓ} (m : Outcome A) → Ensures (λ _. Unit {0}) m
Ensures-any (ok a) = tt
Ensures-any exited = tt
Ensures-any undefined = tt

-- What a call returns, it returns.
pub Ensures-ok : {A : Type 0} (m : Outcome A) → Ensures (λ a. m ≡ ok a) m
Ensures-ok (ok a) = refl
Ensures-ok exited = tt
Ensures-ok undefined = tt

pub Returns-mono {ℓ} :
    {A : Type ℓ} (P Q : A → Type 0) (m : Outcome A)
    → ((a : A) → P a → Q a)
    → Returns P m
    → Returns Q m
Returns-mono P Q (ok a) k h = k a h
Returns-mono P Q exited k h = absurd h
Returns-mono P Q undefined k h = absurd h

pub >>=-Returns {ℓ κ} :
    {A : Type ℓ} {B : Type κ} (P : A → Type 0) (Q : B → Type 0) (m : Outcome A) (f : A → Outcome B)
    → Returns P m
    → ((a : A) → P a → Returns Q (f a))
    → Returns Q (m >>= f)
>>=-Returns P Q (ok a) f h k = k a h
>>=-Returns P Q exited f h k = absurd h
>>=-Returns P Q undefined f h k = absurd h

pub Returns-both {ℓ} :
    {A : Type ℓ} (P Q : A → Type 0) (m : Outcome A)
    → Returns P m
    → Returns Q m
    → Returns (λ a. P a × Q a) m
Returns-both P Q (ok a) h k = (h, k)
Returns-both P Q exited h k = absurd h
Returns-both P Q undefined h k = absurd h

pub Returns-Ensures {ℓ} :
    {A : Type ℓ} (P Q : A → Type 0) (m : Outcome A)
    → Returns P m
    → Ensures Q m
    → Returns (λ a. P a × Q a) m
Returns-Ensures P Q (ok a) h k = (h, k)
Returns-Ensures P Q exited h k = absurd h
Returns-Ensures P Q undefined h k = absurd h
