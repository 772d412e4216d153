-- ===== src/Prelude/Results.antt =====
-- Results of code that can fail, and their `do` blocks.
use mathlib.Core.Path.{◌≡◌, refl, subst}
use nett.Prelude.Tests.{if◌then◌else◌}
use mathlib.Core.Bool.{Bool, true, false}
use mathlib.Core.Option.{Option, none, some}

pub data Result {ℓ} (E : Type 0) (A : Type ℓ) : Type ℓ where
  err : E → Result E A
  ok : A → Result E A

-- the rest of the code, unless there is an error already
infixl 5 ◌>>=◌
abbrev pub ◌>>=◌ {ℓ κ} :
    {E : Type 0} {A : Type ℓ} {B : Type κ} → Result E A → (A → Result E B) → Result E B
err reason >>= rest = err reason
ok value >>= rest = rest value

-- the same for code that returns an error alone
infixl 5 ◌>>◌
abbrev pub ◌>>◌ {κ} : {E : Type 0} {B : Type κ} → Result E (Unit {0}) → Result E B → Result E B
first >> rest = first >>= λ nothing. rest

-- `if !b { return e }`
abbrev pub check : {E : Type 0} → Bool → E → Result E (Unit {0})
check false reason = err reason
check true reason = ok tt

-- `if o == nil { return e }`
abbrev pub require {ℓ} : {E : Type 0} {A : Type ℓ} → Option A → E → Result E A
require none e = err e
require (some a) e = ok a

pub ok-injective : {E A : Type 0} {a b : A} → ◌≡◌ {A = Result E A} (ok a) (ok b) → a ≡ b
ok-injective h = cc

abbrev pub Holds : {E A : Type 0} → (E → Type 0) → (A → Type 0) → Result E A → Type 0
Holds P Q (ok a) = Q a
Holds P Q (err e) = P e

-- A result's error satisfies `P`, and its value satisfies `Q`.
pub record Ensures {E A : Type 0} (P : E → Type 0) (Q : A → Type 0) (r : Result E A) : Type 0 where
  pub holds : Holds P Q r

-- a result is what it is
pub Ensures-self : {E A : Type 0} (m : Result E A) → Ensures (λ _. Unit {0}) (λ a. m ≡ ok a) m
Ensures-self (err e) = record { holds = tt }
Ensures-self (ok a) = record { holds = refl }

module _ {E : Type 0} {P : E → Type 0} where
  pub Ensures-pure : {A : Type 0} {Q : A → Type 0} {a : A} → Q a → Ensures P Q (ok a)
  Ensures-pure h = record { holds = h }

  pub Ensures-err : {A : Type 0} {Q : A → Type 0} {e : E} → P e → Ensures P Q (err e)
  Ensures-err h = record { holds = h }

  pub Ensures-bind :
      {A B : Type 0} {Q : A → Type 0} {R : B → Type 0} (m : Result E A) (f : A → Result E B)
      → Ensures P Q m
      → ((a : A) → Q a → Ensures P R (f a))
      → Ensures P R (m >>= f)
  Ensures-bind (ok a) f h k = k a h.holds
  Ensures-bind (err e) f h k = record { holds = h.holds }

  pub Ensures-check :
      {B : Type 0} {R : B → Type 0} (b : Bool) (e : E) (k : Result E B)
      → P e
      → (b ≡ true → Ensures P R k)
      → Ensures P R (check b e >> k)
  Ensures-check true e k h c = c refl
  Ensures-check false e k h c = record { holds = h }

  pub Ensures-map :
      {A : Type 0} {Q R : A → Type 0} (m : Result E A)
      → ((a : A) → Q a → R a)
      → Ensures P Q m
      → Ensures P R m
  Ensures-map (ok a) f h = record { holds = f a h.holds }
  Ensures-map (err e) f h = record { holds = h.holds }

  pub Ensures-if :
      {A : Type 0} {Q : A → Type 0} (b : Bool) (m n : Result E A)
      → (b ≡ true → Ensures P Q m)
      → (b ≡ false → Ensures P Q n)
      → Ensures P Q (if b then m else n)
  Ensures-if true m n h k = h refl
  Ensures-if false m n h k = k refl

  -- a test whose outcome the branches do not need
  pub Ensures-cases :
      {A : Type 0} {Q : A → Type 0} (b : Bool) {m n : Result E A}
      → Ensures P Q m
      → Ensures P Q n
      → Ensures P Q (if b then m else n)
  Ensures-cases true h k = h
  Ensures-cases false h k = k

  -- what an `ok` result satisfies
  pub Ensures-ok :
      {A : Type 0} {Q : A → Type 0} {m : Result E A} {a : A} → Ensures P Q m → m ≡ ok a → Q a
  Ensures-ok {Q = Q} {m = ok a} h e = subst Q (ok-injective e) h.holds
  Ensures-ok {m = err e'} h e = cc

-- If the whole ends well, so do its first part, with some value, and the rest from that value on.
module _ {ℓ μ} {E : Type 0} {A : Type ℓ} {B : Type μ} where
  pub >>=-eq-ok :
      (first : Result E A) (rest : A → Result E B) {out : B}
      → (first >>= rest) ≡ ok out
      → (v : A) × (first ≡ ok v) × (rest v ≡ ok out)
  >>=-eq-ok (err reason) rest h = cc
  >>=-eq-ok (ok v) rest h = (v, refl, h)

-- What follows a check that passed, and that it passed.
pub check-eq-ok {κ} :
    {E : Type 0} {B : Type κ} (b : Bool) (e : E) (k : Result E B) {r : B}
    → (check b e >> k) ≡ ok r
    → (b ≡ true) × (k ≡ ok r)
check-eq-ok true e k h = (refl, h)
check-eq-ok false e k h = cc
