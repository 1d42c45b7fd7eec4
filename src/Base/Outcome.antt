-- ===== src/Base/Outcome.antt =====
-- Go's (value, error) pair with a third outcome, that a call does not return, and the state monad
-- over it.
use Prim.Native.Nat.{ℕ}
use mathlib.Core.Bool.{Bool, true, false}

-- What a connection or a dialer reports: `io.EOF`, or another error, by number.
pub data NetError : Type 0 where
  eof : NetError
  fault : ℕ → NetError

-- The errors of the code, one constructor for each message.
pub data Error : Type 0 where
  net : NetError → Error
  unexpected_eof : Error
  invalid_address : Error
  unsupported_type : Error
  unsupported_mode : Error
  unsupported_version : Error
  read_length_not_positive : Error
  invalid_function_code : Error
  invalid_register_byte_count : Error
  too_many_registers : ℕ → Error
  invalid_write_register : Error
  invalid_write_coil : Error
  transaction_mismatch : Error
  unit_mismatch : Error
  invalid_response_length : Error
  modbus_exception : ℕ → Error
  response_too_short : Error
  crc_failed : Error
  lrc_failed : Error
  missing_colon : Error
  odd_hex_length : Error
  bad_hex : Error
  ascii_too_short : Error
  ascii_too_long : Error
  unsupported_function : ℕ → Error
  failed_after : ℕ → Error → Error
  response_data_too_short : ℕ → ℕ → Error
  plc_end_code : ℕ → Error
  empty_response : Error
  not_enough_words : Error
  dial_failed : Error → Error
  address_not_d : Error
  invalid_d_address : Error
  invalid_magic : Error
  invalid_content_length : Error
  fins_status : ℕ → Error
  fins_end_code : ℕ → Error
  fins_too_short : Error
  invalid_session : Error
  empty_tag : Error
  tag_too_long : Error
  string_too_long : Error
  not_enough_data : Error
  length_not_in_range : Error
  invalid_read_response : Error
  invalid_read_count : Error

-- `panic` is a call that does not return: the code panics, or a loop does not end, which the model
-- sees as fuel that ran out.
pub data Outcome {ℓ} (A : Type ℓ) : Type ℓ where
  ok : A → Outcome A
  err : Error → Outcome A
  panic : Outcome A

-- A call that works on a state `S`: it returns an outcome, and the state in which it leaves `S`.
abbrev pub M {ℓ κ} : Type ℓ → Type κ → Type (ℓ ⊔ κ)
M S A = S → Outcome A × S

-- An error is returned at once, as after `if err != nil`; nothing follows a call that does not return.
abbrev pub continue {ℓ κ μ} :
    {S : Type ℓ} {A : Type κ} {B : Type μ} → Outcome A × S → (A → M S B) → Outcome B × S
continue (ok a, s) f = f a s
continue (err e, s) f = (err e, s)
continue (panic, s) f = (panic, s)

infixl 5 ◌>>=◌ ◌>>◌
abbrev pub ◌>>=◌ {ℓ κ μ} : {S : Type ℓ} {A : Type κ} {B : Type μ} → M S A → (A → M S B) → M S B
◌>>=◌ m f s = continue (m s) f

abbrev pub ◌>>◌ {ℓ κ μ} : {S : Type ℓ} {A : Type κ} {B : Type μ} → M S A → M S B → M S B
◌>>◌ m k s = continue (m s) (λ _. k)

-- The outcome of a computation that leaves the state alone.
abbrev pub lift {ℓ κ} : {S : Type ℓ} {A : Type κ} → Outcome A → M S A
lift r s = (r, s)

-- `if test { return nil, e }`
abbrev pub reject {ℓ} : {S : Type ℓ} → Bool → Error → M S (Unit {0})
reject true e s = (err e, s)
reject false e s = (ok tt, s)

-- The same for code that has no state.
abbrev pub bind {ℓ κ} : {A : Type ℓ} {B : Type κ} → Outcome A → (A → Outcome B) → Outcome B
bind (ok a) f = f a
bind (err e) f = err e
bind panic f = panic

-- The call returns: there is no panic, and no loop goes on for ever.
abbrev pub NoPanic {ℓ} : {A : Type ℓ} → Outcome A → Type 0
NoPanic (ok a) = Unit
NoPanic (err e) = Unit
NoPanic panic = ⊥

-- A postcondition for the value and the state of a success, one for the state of an error,
-- and the call returns.
abbrev pub Meets {ℓ κ} :
    {S : Type ℓ} {A : Type κ} → (A → S → Type 0) → (Error → S → Type 0) → Outcome A × S → Type 0
Meets Q E (ok a, s) = Q a s
Meets Q E (err e, s) = E e s
Meets Q E (panic, s) = ⊥

-- The rule for a sequence of calls.
pub continue-Meets {ℓ κ μ} :
    {S : Type ℓ} {A : Type κ} {B : Type μ} (P : A → S → Type 0) (Q : B → S → Type 0)
    (E : Error → S → Type 0) (r : Outcome A × S) (f : A → M S B)
    → Meets P E r
    → ((a : A) (s : S) → P a s → Meets Q E (f a s))
    → Meets Q E (continue r f)
continue-Meets P Q E (ok a, s) f h k = k a s h
continue-Meets P Q E (err e, s) f h k = h
continue-Meets P Q E (panic, s) f h k = absurd h

-- A weaker postcondition.
pub weaken-Meets {ℓ κ} :
    {S : Type ℓ} {A : Type κ} (P Q : A → S → Type 0) (E F : Error → S → Type 0) (r : Outcome A × S)
    → Meets P E r
    → ((a : A) (s : S) → P a s → Q a s)
    → ((e : Error) (s : S) → E e s → F e s)
    → Meets Q F r
weaken-Meets P Q E F (ok a, s) h k l = k a s h
weaken-Meets P Q E F (err e, s) h k l = l e s h
weaken-Meets P Q E F (panic, s) h k l = h
