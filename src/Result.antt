-- ===== src/Result.antt =====
-- Rust's `Result`, with `?` as the bind of a do block.
use mathlib.Core.Path.{Path}
use cryptography.Prelude.{◌≡◌, refl, ◌⊎◌, inl, inr}

pub data Result {ℓ κ} (E : Type ℓ) (A : Type κ) : Type (ℓ ⊔ κ) where
  ok : A → Result E A
  err : E → Result E A

infixl 5 ◌>>=◌ ◌>>◌
abbrev pub ◌>>=◌ {ℓ κ μ} :
    {E : Type ℓ} {A : Type κ} {B : Type μ} → Result E A → (A → Result E B) → Result E B
ok a >>= f = f a
err e >>= f = err e

abbrev pub ◌>>◌ {ℓ κ} : {E : Type ℓ} {B : Type κ} → Result E (Unit {0}) → Result E B → Result E B
m >> k = m >>= λ _. k

-- map_err
abbrev pub map_err {ℓ κ μ} :
    {E : Type ℓ} {F : Type κ} {A : Type μ} → (E → F) → Result E A → Result F A
map_err f (ok a) = ok a
map_err f (err e) = err (f e)

pub ok-injective {ℓ κ} :
    {E : Type ℓ} {A : Type κ} {x y : A} → Path (Result E A) (ok x) (ok y) → x ≡ y
ok-injective h = cc

-- What a sequence that succeeds says of its steps.
module _ {ℓ κ μ} {E : Type ℓ} {A : Type κ} {B : Type μ} where
  pub >>=-eq-ok :
      (first : Result E A) (next : A → Result E B) {y : B}
      → first >>= next ≡ ok y
      → (x : A) × (first ≡ ok x) × (next x ≡ ok y)
  >>=-eq-ok (err e) next failed = cc
  >>=-eq-ok (ok x) next went_on = (x, refl, went_on)

module _ {ℓ κ} {E : Type ℓ} {A : Type κ} where
  pub map_err-eq-ok :
      {F : Type ℓ} (f : E → F) (m : Result E A) {x : A} → map_err f m ≡ ok x → m ≡ ok x
  map_err-eq-ok f (ok x) h = cc
  map_err-eq-ok f (err e) h = cc

pub >>-eq-ok {ℓ κ} :
    {E : Type ℓ} {B : Type κ} (check : Result E (Unit {0})) (rest : Result E B) {y : B}
    → (check >> rest) ≡ ok y
    → (check ≡ ok tt) × (rest ≡ ok y)
>>-eq-ok (err e) rest failed = cc
>>-eq-ok (ok u) rest went_on = (refl, went_on)

-- The same for a proof that goes on with the values of the steps.
pub >>=-elim {ℓ κ μ ν} :
    {E : Type ℓ} {A : Type κ} {B : Type μ} {C : Type ν} (first : Result E A) {next : A → Result E B}
    {y : B}
    → first >>= next ≡ ok y
    → ((x : A) → first ≡ ok x → next x ≡ ok y → C)
    → C
>>=-elim (err e) failed use_steps = absurd (cc)
>>=-elim (ok x) went_on use_steps = use_steps x refl went_on

pub >>=-ok {ℓ κ μ} :
    {E : Type ℓ} {A : Type κ} {B : Type μ} (first : Result E A) (next : A → Result E B) {x : A}
    {r : Result E B}
    → first ≡ ok x
    → next x ≡ r
    → first >>= next ≡ r
>>=-ok (err e) next failed went_on = absurd (cc)
>>=-ok (ok y) next step went_on = rw (ok-injective step) went_on

-- Sequences that go on in the same way wherever the first step succeeds.
pub >>=-agree {ℓ κ μ} :
    {E : Type ℓ} {A : Type κ} {B : Type μ} (first : Result E A) (f g : A → Result E B)
    → ((x : A) → first ≡ ok x → f x ≡ g x)
    → first >>= f ≡ first >>= g
>>=-agree (ok x) f g same = same x refl
>>=-agree (err e) f g same = refl

pub Result-cases {ℓ κ} :
    {E : Type ℓ} {A : Type κ} (r : Result E A) → ((a : A) × (r ≡ ok a)) ⊎ ((e : E) × (r ≡ err e))
Result-cases (ok a) = inl (a, refl)
Result-cases (err e) = inr (e, refl)
