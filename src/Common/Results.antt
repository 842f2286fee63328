-- ===== src/Common/Results.antt =====
-- Go's pair of a value and an error, of which one is present, and chains of such calls.
use mathlib.Core.Path.{◌≡◌, refl}
use mathlib.Core.Option.{Option, none, some}
use mathlib.Core.List.{List, [], ◌∷◌}
use mission_control_edge.Common.Lists.{All}
use mathlib.Core.Logic.{◌⊎◌, inl, inr}
use mathlib.Core.Bool.{Bool, true, false}

pub data Outcome {ℓ κ} (E : Type ℓ) (A : Type κ) : Type (ℓ ⊔ κ) where
  ok : A → Outcome E A
  err : E → Outcome E A

-- A function that returns only an error: `ok tt` is nil.
abbrev pub Check {ℓ} : Type ℓ → Type ℓ
Check E = Outcome E (Unit {0})

infixl 5 ◌>>=◌ ◌>>◌
abbrev pub ◌>>=◌ {ℓ κ μ} :
    {E : Type ℓ} {A : Type κ} {B : Type μ} → Outcome E A → (A → Outcome E B) → Outcome E B
ok a >>= f = f a
err e >>= f = err e

abbrev pub ◌>>◌ {ℓ κ} : {E : Type ℓ} {B : Type κ} → Check E → Outcome E B → Outcome E B
m >> k = m >>= λ _. k

-- `if test { return e }`.
abbrev pub reject_if {ℓ} : {E : Type ℓ} → Bool → E → Check E
reject_if true e = err e
reject_if false e = ok tt

-- `if err := m; err != nil { return e }`: the error of a call is replaced.
abbrev pub or_else {ℓ κ μ} : {D : Type ℓ} {E : Type κ} {A : Type μ} → Outcome D A → E → Outcome E A
or_else (ok a) e = ok a
or_else (err d) e = err e

-- `value, ok := m; if !ok { return e }`: a value that may be missing.
abbrev pub present {ℓ κ} : {E : Type ℓ} {A : Type κ} → Option A → E → Outcome E A
present (some a) e = ok a
present none e = err e

-- `if value, ok := m; ok { return check(value) }`: a check of a value that may be missing.
abbrev pub if_present {ℓ κ} : {E : Type ℓ} {A : Type κ} → Option A → (A → Check E) → Check E
if_present (some a) check = check a
if_present none check = ok tt

abbrev pub IfPresent {ℓ κ} : {A : Type ℓ} → Option A → (A → Type κ) → Type κ
IfPresent (some a) P = P a
IfPresent none P = Unit

-- `err == nil`
abbrev pub is_ok {ℓ κ} : {E : Type ℓ} {A : Type κ} → Outcome E A → Bool
is_ok (ok a) = true
is_ok (err e) = false

pub reject_if-bind-ok {ℓ κ} :
    {E : Type ℓ} {B : Type κ} (b : Bool) (e : E) (k : Outcome E B) {x : B}
    → (reject_if b e >> k) ≡ ok x
    → (b ≡ false) × (k ≡ ok x)
reject_if-bind-ok true e k h = cc
reject_if-bind-ok false e k h = (refl, h)

pub check-bind-ok {ℓ κ} :
    {E : Type ℓ} {B : Type κ} (m : Check E) (k : Outcome E B) {x : B}
    → (m >> k) ≡ ok x
    → (m ≡ ok tt) × (k ≡ ok x)
check-bind-ok (ok tt) k h = (refl, h)
check-bind-ok (err e) k h = cc

pub bind-eq-ok {ℓ κ μ} :
    {E : Type ℓ} {A : Type κ} {B : Type μ} (m : Outcome E A) (f : A → Outcome E B) {b : B}
    → (m >>= f) ≡ ok b
    → (a : A) × (m ≡ ok a) × (f a ≡ ok b)
bind-eq-ok (ok a) f h = (a, refl, h)
bind-eq-ok (err e) f h = cc

pub check-cases {ℓ} : {E : Type ℓ} (m : Check E) → (m ≡ ok tt) ⊎ ((e : E) × (m ≡ err e))
check-cases (ok tt) = inl refl
check-cases (err e) = inr (e, refl)

-- A run of checks, each of the form `if err := check; err != nil { return err }`: the first error.
unfoldable pub first_error {ℓ} : {E : Type ℓ} → List (Check E) → Check E
first_error [] = ok tt
first_error (m ∷ rest) = m >> first_error rest

-- The run succeeds when all its checks do.
pub first_error-ok {ℓ} :
    {E : Type ℓ} (l : List (Check E)) → first_error l ≡ ok tt → All (λ m. m ≡ ok tt) l
unfolding first_error
first_error-ok [] h = tt
first_error-ok (ok tt ∷ rest) h = (refl, first_error-ok rest h)
first_error-ok (err e ∷ rest) h = cc

pub first_error_of_All {ℓ} :
    {E : Type ℓ} (l : List (Check E)) → All (λ m. m ≡ ok tt) l → first_error l ≡ ok tt
unfolding first_error
first_error_of_All [] h = refl
first_error_of_All (m ∷ rest) h = rw h.0 (first_error_of_All rest h.1)

pub reject_if-eq-ok {ℓ} : {E : Type ℓ} (b : Bool) (e : E) → reject_if b e ≡ ok tt → b ≡ false
reject_if-eq-ok true e h = cc
reject_if-eq-ok false e h = refl

pub or_else-eq-ok {ℓ κ μ} :
    {D : Type ℓ} {E : Type κ} {A : Type μ} (m : Outcome D A) (e : E) {a : A}
    → or_else m e ≡ ok a
    → m ≡ ok a
or_else-eq-ok (ok a) e h = cc
or_else-eq-ok (err d) e h = cc

pub outcome-cases {ℓ κ} :
    {E : Type ℓ} {A : Type κ} (m : Outcome E A) → ((a : A) × (m ≡ ok a)) ⊎ ((e : E) × (m ≡ err e))
outcome-cases (ok a) = inl (a, refl)
outcome-cases (err e) = inr (e, refl)

pub is_ok-eq-ok {ℓ} : {E : Type ℓ} (m : Check E) → is_ok m ≡ true → m ≡ ok tt
is_ok-eq-ok (ok tt) h = refl
is_ok-eq-ok (err e) h = cc

pub present-eq-ok {ℓ κ} :
    {E : Type ℓ} {A : Type κ} (o : Option A) (e : E) {a : A} → present o e ≡ ok a → o ≡ some a
present-eq-ok (some a) e h = cc
present-eq-ok none e h = cc

pub if_present-ok {ℓ κ μ} :
    {E : Type ℓ} {A : Type κ} {P : A → Type μ} (o : Option A) (check : A → Check E)
    → ((a : A) → check a ≡ ok tt → P a)
    → if_present o check ≡ ok tt
    → IfPresent o P
if_present-ok (some a) check law h = law a h
if_present-ok none check law h = tt

pub some-injective {ℓ} : {A : Type ℓ} {a b : A} → some a ≡ some b → a ≡ b
some-injective h = cc
