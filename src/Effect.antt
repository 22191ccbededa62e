-- ===== src/Effect.antt =====
-- Go functions with effects: a state of the outside world goes in and comes back, beside a value
-- or an error. A call that fails has still changed the world.
use ofm_mail_service.Errors.{Err}
use ofm_mail_service.Prelude.{◌≡◌, refl, ◌⊎◌, inl, inr, Bool, true, false, Option, none, some}

pub data Result {ℓ} (A : Type ℓ) : Type ℓ where
  ok : A → Result A
  err : Err → Result A

-- `if err != nil { return err }` after a call that leaves the world alone
abbrev pub bind_result {ℓ κ} : {A : Type ℓ} {B : Type κ} → Result A → (A → Result B) → Result B
bind_result (ok a) f = f a
bind_result (err e) f = err e

abbrev pub Eff {ℓ} : Type ℓ → Type ℓ → Type ℓ
Eff W A = W → Result A × W

module _ {ℓ} {W A : Type ℓ} where
  abbrev pub pure : A → Eff W A
  pure a w = (ok a, w)

  abbrev pub fail : Err → Eff W A
  fail e w = (err e, w)

  abbrev pub lift : Result A → Eff W A
  lift r w = (r, w)

-- `if test { return err }`
abbrev pub reject_if {ℓ} : {W : Type ℓ} → Bool → Err → Eff W (Unit {ℓ})
reject_if true e w = (err e, w)
reject_if false e w = (ok tt, w)

module _ {ℓ} {W A B : Type ℓ} where
  abbrev pub continue : Result A → (A → Eff W B) → Eff W B
  continue (ok a) f w = f a w
  continue (err e) f w = (err e, w)

  infixl 10 ◌>>=◌ ◌>>◌
  -- `if err != nil { return err }` after a call
  abbrev pub ◌>>=◌ : Eff W A → (A → Eff W B) → Eff W B
  ◌>>=◌ m f w = let (r, w') = m w in continue r f w'

  abbrev pub ◌>>◌ : Eff W A → Eff W B → Eff W B
  m >> n = m >>= λ _. n

  -- A call whose error the caller looks at, or drops.
  abbrev pub settle : (Result A → Eff W B) → Result A × W → Result B × W
  settle f (r, w) = f r w

  abbrev pub attempt : Eff W A → (Result A → Eff W B) → Eff W B
  attempt m f w = settle f (m w)

-- An error that is only checked for nil.
abbrev pub check : Option Err → Result (Unit {0})
check none = ok tt
check (some e) = err e

pub Result-cases {ℓ} :
    {A : Type ℓ} (r : Result A) → ((a : A) × (r ≡ ok a)) ⊎ ((e : Err) × (r ≡ err e))
Result-cases (ok a) = inl (a, refl)
Result-cases (err e) = inr (e, refl)

-- Inversion of a successful bind, for proofs that keep the parts shut.
pub bind_result-eq-ok {ℓ κ} :
    {A : Type ℓ} {B : Type κ} (m : Result A) (f : A → Result B) {b : B}
    → bind_result m f ≡ ok b
    → (a : A) × (m ≡ ok a) × (f a ≡ ok b)
bind_result-eq-ok (ok a) f h = (a, refl, h)
bind_result-eq-ok (err e) f h = cc

module _ {ℓ} {W A B : Type ℓ} where
  continue-eq-ok :
      (r : Result A) (f : A → Eff W B) (w : W) {b : B}
      → (continue r f w).0 ≡ ok b
      → (a : A) × (r ≡ ok a) × ((f a w).0 ≡ ok b)
  continue-eq-ok (ok a) f w h = (a, refl, h)
  continue-eq-ok (err e) f w h = cc

  pub >>=-eq-ok :
      (m : Eff W A) (f : A → Eff W B) (w : W) {b : B}
      → ((m >>= f) w).0 ≡ ok b
      → (a : A) × ((m w).0 ≡ ok a) × ((f a (m w).1).0 ≡ ok b)
  >>=-eq-ok m f w h = continue-eq-ok (m w).0 f (m w).1 h
