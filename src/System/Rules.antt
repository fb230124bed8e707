-- ===== src/System/Rules.antt =====
-- Rules for what holds at the end of a piece of code, however it ends.
use vncproxy.Prelude.{◌≡◌, refl}
use vncproxy.System.{History, Outcome, done, returned, fault, Act, bind_outcome}

-- `Q` holds of a value and the calls so far, and `R` of the calls at a `return`; a fault has
-- nothing to show.
abbrev pub Holds {ℓ} :
    {A : Type 0} → (A → History → Type ℓ) → (History → Type ℓ) → Outcome A → Type ℓ
Holds Q R (done a h) = Q a h
Holds Q R (returned h) = R h
Holds Q R fault = Unit

pub bind-Holds {ℓ} :
    {A B : Type 0} (Q : A → History → Type ℓ) (P : B → History → Type ℓ) (R : History → Type ℓ)
    (o : Outcome A) (f : A → Act B)
    → Holds Q R o
    → ((a : A) (h : History) → Q a h → Holds P R (f a h))
    → Holds P R (bind_outcome o f)
bind-Holds Q P R (done a h) f q k = k a h q
bind-Holds Q P R (returned h) f q k = q
bind-Holds Q P R fault f q k = tt

pub Holds-weaken {ℓ} :
    {A : Type 0} (Q : A → History → Type ℓ) (R S : History → Type ℓ) (o : Outcome A)
    → Holds Q R o
    → ((h : History) → R h → S h)
    → Holds Q S o
Holds-weaken Q R S (done a h) q k = q
Holds-weaken Q R S (returned h) q k = k h q
Holds-weaken Q R S fault q k = tt

-- The code ends with a value, and `Q` holds of it.
abbrev pub Goes : {A : Type 0} → (A → History → Type 0) → Outcome A → Type 0
Goes Q (done a h) = Q a h
Goes Q (returned h) = ⊥
Goes Q fault = ⊥

pub bind-Goes :
    {A B : Type 0} (Q : A → History → Type 0) (P : B → History → Type 0) (o : Outcome A)
    (f : A → Act B)
    → Goes Q o
    → ((a : A) (h : History) → Q a h → Goes P (f a h))
    → Goes P (bind_outcome o f)
bind-Goes Q P (done a h) f q k = k a h q
bind-Goes Q P (returned h) f q k = absurd q
bind-Goes Q P fault f q k = absurd q

pub Holds-map {ℓ} :
    {A : Type 0} (R : History → Type ℓ) (Q P : A → History → Type ℓ) (o : Outcome A)
    → Holds Q R o
    → ((a : A) (h : History) → Q a h → P a h)
    → Holds P R o
Holds-map R Q P (done a h) q k = k a h q
Holds-map R Q P (returned h) q k = q
Holds-map R Q P fault q k = tt

-- A step of which nothing is needed.
pub bind-skip {ℓ} :
    {A B : Type 0} (P : B → History → Type ℓ) (o : Outcome A) (f : A → Act B)
    → ((a : A) (h : History) → Holds P (λ _. Unit) (f a h))
    → Holds P (λ _. Unit) (bind_outcome o f)
bind-skip P (done a h) f k = k a h
bind-skip P (returned h) f k = tt
bind-skip P fault f k = tt

pub Goes-done :
    {A : Type 0} (Q : A → History → Type 0) (o : Outcome A)
    → Goes Q o
    → (a : A) × (h : History) × (o ≡ done a h) × Q a h
Goes-done Q (done a h) q = (a, h, refl, q)
Goes-done Q (returned h) q = absurd q
Goes-done Q fault q = absurd q
