-- ===== src/Isofs/Ends.antt =====
-- Runs of the ISO driver that end: with a value that has a property, or undefined.
use adr_bubble_booter_oss.Prelude.{Option, none, some}
use adr_bubble_booter_oss.Isofs.{Run, done, fault, stuck, ◌>>=◌, need}

abbrev pub Ends {ℓ} : {A : Type ℓ} → (A → Type 0) → Run A → Type 0
Ends P (done a) = P a
Ends P fault = Unit
Ends P stuck = ⊥

pub bind-Ends {ℓ ρ} :
    {A : Type ℓ} {B : Type ρ} {P : A → Type 0} (Q : B → Type 0) (r : Run A) (k : A → Run B)
    → Ends P r
    → ((a : A) → P a → Ends Q (k a))
    → Ends Q (r >>= k)
bind-Ends Q (done a) k h f = f a h
bind-Ends Q fault k h f = tt
bind-Ends Q stuck k h f = absurd h

pub map-Ends {ℓ} :
    {A : Type ℓ} {P : A → Type 0} (Q : A → Type 0) (r : Run A)
    → ((a : A) → P a → Q a)
    → Ends P r
    → Ends Q r
map-Ends Q (done a) f h = f a h
map-Ends Q fault f h = tt
map-Ends Q stuck f h = absurd h

pub need-Ends {ℓ} : {A : Type ℓ} (o : Option A) → Ends (λ _. Unit) (need o)
need-Ends none = tt
need-Ends (some a) = tt
