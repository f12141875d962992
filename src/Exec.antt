-- ===== src/Exec.antt =====
-- server/army3_protocol/errors.py, and methods that change an object and may raise: an action maps
-- the object's state to a result and to the state that it leaves, which is kept when it raises.
use army.Common.{Bool, true, false, ◌≡◌, refl, ◌⊎◌, inl, inr, if◌then◌else◌}

-- The exception classes that the modelled code raises. From `value_error` to `os_error` they are
-- Python's own, `redirect_error` is `RedirectError` of tools/redirect_client.py and `read_error`
-- `RuntimeReadError` of tools/inspect_runtime_state.py. `out_of_fuel` is no exception: a modelled
-- loop ran out of its bound, which theorems exclude. The messages are not modelled.
pub data Error : Type 0 where
  protocol_error encode_error decode_error frame_error session_protocol_error : Error
  value_error index_error unicode_encode_error unicode_decode_error runtime_error os_error : Error
  redirect_error read_error out_of_fuel : Error

-- `isinstance(e, ProtocolError)`
unfoldable pub is_protocol_error : Error → Bool
is_protocol_error protocol_error = true
is_protocol_error encode_error = true
is_protocol_error decode_error = true
is_protocol_error frame_error = true
is_protocol_error session_protocol_error = true
is_protocol_error _ = false

pub data Result {ℓ} (A : Type ℓ) : Type ℓ where
  ok : A → Result A
  err : Error → Result A

abbrev pub bind_result {ℓ κ} : {A : Type ℓ} {B : Type κ} → Result A → (A → Result B) → Result B
bind_result (ok a) f = f a
bind_result (err e) f = err e

pub Result-cases {ℓ} :
    {A : Type ℓ} (r : Result A) → ((a : A) × (r ≡ ok a)) ⊎ ((e : Error) × (r ≡ err e))
Result-cases (ok a) = inl (a, refl)
Result-cases (err e) = inr (e, refl)

-- A check that has been passed.
pub check-ok {ℓ} :
    {A : Type ℓ} (b : Bool) (e : Error) (r : Result A) (a : A)
    → (if b then err e else r) ≡ ok a
    → (b ≡ false) × (r ≡ ok a)
check-ok true e r a h = absurd (cc h)
check-ok false e r a h = (refl, h)

pub ok-injective {ℓ} : {A : Type ℓ} (a b : A) → ok a ≡ ok b → a ≡ b
ok-injective a b h = cc h

abbrev pub Exec {ℓ κ} : Type ℓ → Type κ → Type (ℓ ⊔ κ)
Exec S A = S → Result A × S

module _ {ℓ κ} {S : Type ℓ} {A : Type κ} where
  abbrev pub pure : A → Exec S A
  pure a s = (ok a, s)

  abbrev pub raise : Error → Exec S A
  raise e s = (err e, s)

  abbrev pub lift : Result A → Exec S A
  lift r s = (r, s)

  abbrev pub gets : (S → A) → Exec S A
  gets f s = (ok (f s), s)

module _ {ℓ κ μ} {S : Type ℓ} {A : Type κ} {B : Type μ} where
  abbrev pub continue : Result A → (A → Exec S B) → Exec S B
  continue (ok a) f s = f a s
  continue (err e) f s = (err e, s)

  infixl 5 ◌>>=◌
  abbrev pub ◌>>=◌ : Exec S A → (A → Exec S B) → Exec S B
  ◌>>=◌ m f s = let (r, s') = m s in continue r f s'

module _ {ℓ κ μ} {S : Type ℓ} {A : Type κ} {B : Type μ} where
  infixl 5 ◌>>◌
  abbrev pub ◌>>◌ : Exec S A → Exec S B → Exec S B
  ◌>>◌ m n = m >>= λ _. n

module _ {ℓ} {S A B C : Type ℓ} where
  continue_assoc :
      (r : Result A) (n : Exec S B) (k : Exec S C) (s : S)
      → (continue r (λ _. n) >>= λ _. k) s ≡ continue r (λ _. n >> k) s
  continue_assoc (ok a) n k s = refl
  continue_assoc (err e) n k s = refl

  pub >>_assoc :
      (m : Exec S A) (n : Exec S B) (k : Exec S C) (s : S) → (m >> n >> k) s ≡ (m >> (n >> k)) s
  >>_assoc m n k s = let (r, s') = m s in continue_assoc r n k s'

module _ {ℓ} {S : Type ℓ} where
  -- `if test: raise e`
  abbrev pub raise_if : Bool → Error → Exec S (Unit {0})
  raise_if true e s = (err e, s)
  raise_if false e s = (ok tt, s)
