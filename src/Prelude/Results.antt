-- ===== src/Prelude/Results.antt =====
-- `Result<A, E>` and its sequencing.
use mathlib.Core.Path.{◌≡◌, refl, subst}
use mathlib.Core.Logic.{◌⊎◌, inl, inr}
use mathlib.Core.Bool.{Bool, true, false}
use mathlib.Core.Option.{Option, none, some}

pub data Result {ℓ κ} (E : Type ℓ) (A : Type κ) : Type (ℓ ⊔ κ) where
  ok : A → Result E A
  err : E → Result E A

module _ {ℓ κ μ} {E : Type ℓ} {A : Type κ} {B : Type μ} where
  infixl 5 ◌>>=◌
  -- The `?` operator: an error ends the function, a value goes on.
  abbrev pub ◌>>=◌ : Result E A → (A → Result E B) → Result E B
  outcome >>= next = elim outcome [ ok value ↦ next value | err error ↦ err error ]

  infixl 5 ◌>>◌
  abbrev pub ◌>>◌ : Result E A → Result E B → Result E B
  first >> second = elim first [ ok _ ↦ second | err error ↦ err error ]

-- `if refused { return Err(e) }`.
abbrev pub refuse_if {ℓ} : {E : Type ℓ} → Bool → E → Result E (Unit {0})
refuse_if true e = err e
refuse_if false e = ok tt

-- `ok_or`.
abbrev pub ok_or {ℓ κ} : {E : Type ℓ} {A : Type κ} → Option A → E → Result E A
ok_or none e = err e
ok_or (some a) e = ok a

-- `map_err(|_| e)`.
abbrev pub map_err {ℓ κ μ} : {E : Type ℓ} {F : Type κ} {A : Type μ} → Result E A → F → Result F A
map_err (ok a) f = ok a
map_err (err e) f = err f

module _ {ℓ κ} {E : Type ℓ} {A : Type κ} where
  pub Result-cases : (r : Result E A) → ((a : A) × (r ≡ ok a)) ⊎ ((e : E) × (r ≡ err e))
  Result-cases (ok a) = inl (a, refl)
  Result-cases (err e) = inr (e, refl)

-- A chain that succeeds: its first part does, and the rest from there.
module _ {ℓ κ μ} {E : Type ℓ} {A : Type κ} {B : Type μ} (next : A → Result E B) {last : B} where
  pub >>=-succeeds :
      (first : Result E A)
      → (first >>= next) ≡ ok last
      → (value : A) × (first ≡ ok value) × (next value ≡ ok last)
  >>=-succeeds (err error) done = cc
  >>=-succeeds (ok value) done = (value, refl, done)

-- A property of the value of a chain that succeeds; nothing is asked of one that fails.
abbrev pub Holds {ℓ κ μ} : {E : Type ℓ} {A : Type κ} → (A → Type μ) → Result E A → Type μ
Holds P (ok value) = P value
Holds P (err error) = Unit

module _ {ℓ κ μ ν} {E : Type ℓ} {A : Type κ} {B : Type μ} (P : B → Type ν) where
  pub >>=-Holds :
      (first : Result E A) (next : A → Result E B)
      → ((value : A) → first ≡ ok value → Holds P (next value))
      → Holds P (first >>= next)
  >>=-Holds (ok value) next rest = rest value refl
  >>=-Holds (err error) next rest = tt

  pub >>-Holds :
      (first : Result E A) (second : Result E B)
      → ((value : A) → first ≡ ok value → Holds P second)
      → Holds P (first >> second)
  >>-Holds (ok value) second rest = rest value refl
  >>-Holds (err error) second rest = tt

pub Holds-ok {ℓ κ μ} :
    {E : Type ℓ} {B : Type κ} (P : B → Type μ) (done : Result E B) {value : B}
    → done ≡ ok value
    → Holds P done
    → P value
Holds-ok P done e h = subst (Holds P) e h

-- A check in front of something that succeeds is passed.
pub >>-passes {ℓ κ} :
    {E : Type ℓ} {B : Type κ} (first : Result E (Unit {0})) (second : Result E B) {last : B}
    → (first >> second) ≡ ok last
    → (first ≡ ok tt) × (second ≡ ok last)
>>-passes (ok value) second done = (refl, done)
>>-passes (err error) second done = cc

-- A refusal that did not happen.
pub refuse_if-passes {ℓ} :
    {E : Type ℓ} (refused : Bool) (e : E) → refuse_if refused e ≡ ok tt → refused ≡ false
refuse_if-passes false e done = refl
refuse_if-passes true e done = cc

pub map_err-succeeds {ℓ κ μ} :
    {E : Type ℓ} {F : Type κ} {A : Type μ} (r : Result E A) (f : F) {value : A}
    → map_err r f ≡ ok value
    → r ≡ ok value
map_err-succeeds (ok a) f done = cc
map_err-succeeds (err e) f done = cc

pub ok_or-succeeds {ℓ κ} :
    {E : Type ℓ} {A : Type κ} (o : Option A) (e : E) {value : A}
    → ok_or o e ≡ ok value
    → o ≡ some value
ok_or-succeeds none e done = cc
ok_or-succeeds (some a) e done = cc

pub two_refusals-pass {ℓ} :
    {E : Type ℓ} (a b : Bool) (e f : E)
    → (refuse_if a e >> refuse_if b f) ≡ ok tt
    → (a ≡ false) × (b ≡ false)
two_refusals-pass false false e f done = (refl, refl)
two_refusals-pass false true e f done = cc
two_refusals-pass true b e f done = cc
