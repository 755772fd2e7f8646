-- ===== src/Common/Runs.antt =====
-- The outcome of a C computation, where it may read or write out of bounds, or may not return.
use mathlib.Core.Path.{◌≡◌, refl}

-- `fault` is an access outside an object. `looping` says that the given number of rounds was not
-- enough; it stands for a loop that never ends where it is reached at every number of rounds.
pub data Run {ℓ} (A : Type ℓ) : Type ℓ where
  done : A → Run A
  fault : Run A
  looping : Run A

-- The run ends normally, with a result that satisfies `P`.
abbrev pub Returns {ℓ} : {A : Type ℓ} → (A → Type 0) → Run A → Type 0
Returns P (done a) = P a
Returns P fault = ⊥
Returns P looping = ⊥

-- The rest of a computation is reached only by a run that ends normally.
infixl 5 ◌>>=◌
abbrev pub ◌>>=◌ {ℓ κ} : {A : Type ℓ} {B : Type κ} → Run A → (A → Run B) → Run B
done a >>= f = f a
fault >>= f = fault
looping >>= f = looping

pub Returns->>= {ℓ κ} :
    {A : Type ℓ} {B : Type κ} (P : A → Type 0) (Q : B → Type 0) (m : Run A) (f : A → Run B)
    → Returns P m
    → ((a : A) → P a → Returns Q (f a))
    → Returns Q (m >>= f)
Returns->>= P Q (done a) f p next = next a p
Returns->>= P Q fault f p next = absurd p
Returns->>= P Q looping f p next = absurd p

pub Returns-map {ℓ} :
    {A : Type ℓ} (P Q : A → Type 0) (m : Run A) → ((a : A) → P a → Q a) → Returns P m → Returns Q m
Returns-map P Q (done a) f p = f a p
Returns-map P Q fault f p = p
Returns-map P Q looping f p = p

-- What a run returns, if it returns in the sense of `Returns`.
pub Returns-value {ℓ} :
    {A : Type ℓ} (P : A → Type 0) (m : Run A) → Returns P m → (a : A) × (m ≡ done a) × P a
Returns-value P (done a) p = (a, refl, p)
Returns-value P fault p = absurd p
Returns-value P looping p = absurd p

-- If the run ends normally, its result satisfies `P`.
abbrev pub Ensures {ℓ} : {A : Type ℓ} → (A → Type 0) → Run A → Type 0
Ensures P (done a) = P a
Ensures P fault = Unit
Ensures P looping = Unit

pub Ensures->>= {ℓ κ} :
    {A : Type ℓ} {B : Type κ} (P : A → Type 0) (Q : B → Type 0) (m : Run A) (f : A → Run B)
    → Ensures P m
    → ((a : A) → P a → Ensures Q (f a))
    → Ensures Q (m >>= f)
Ensures->>= P Q (done a) f p next = next a p
Ensures->>= P Q fault f p next = tt
Ensures->>= P Q looping f p next = tt

pub Ensures-map {ℓ} :
    {A : Type ℓ} (P Q : A → Type 0) (m : Run A) → ((a : A) → P a → Q a) → Ensures P m → Ensures Q m
Ensures-map P Q (done a) f p = f a p
Ensures-map P Q fault f p = tt
Ensures-map P Q looping f p = tt

-- Two facts on what a run returns, if one of them says that it returns.
pub Returns-Ensures {ℓ} :
    {A : Type ℓ} (P Q : A → Type 0) (m : Run A)
    → Returns P m
    → Ensures Q m
    → Returns (λ a. P a × Q a) m
Returns-Ensures P Q (done a) p q = (p, q)
Returns-Ensures P Q fault p q = p
Returns-Ensures P Q looping p q = p
