-- ===== src/Mitsubishi/Api/Safety.antt =====
-- Every method returns a result, whatever the connection does and the PLC sends.
use go_iot_client.Base.{
  ℕ, ◌+◌, ◌/◌, ◌%◌, ◌≤◌, ◌≡◌, ◌↔◌, refl, Bool, true, false, not, Option, none, some, List, [], ◌∷◌,
  length, map, arith,
}
use go_iot_client.Base.Int.{ℤ, pos, pos_part, is_positive, signed}
use go_iot_client.Base.Words.Laws.{length-bytes_to_words}
use go_iot_client.Base.Words.{little, bytes_to_words}
use go_iot_client.Base.Slices.{index-nth}
use go_iot_client.Base.Outcome.{
  Error, Outcome, ok, err, panic, lift, reject, read_length_not_positive, continue, ◌>>=◌, NoPanic,
  Meets, continue-Meets,
}
use go_iot_client.Text.{parse_uint, trim_space, to_upper}
use go_iot_client.Core.{Result, ResultT, new_result, fail}
use go_iot_client.Net.{Net, IsLawful, State}
use go_iot_client.Net.Keeps.{Keeps, lift-Keeps}
use go_iot_client.Mitsubishi.Client.{Client, Call, report}
use go_iot_client.Mitsubishi.Client.Address.{parsed, parse_upper, parse_d_address}
use go_iot_client.Mitsubishi.Request.Safety.{SameSettings}
use go_iot_client.Mitsubishi.Words.{read_words_from}
use go_iot_client.Mitsubishi.Words.Safety.{Same, read_words_from-Meets, lift_then, write_words-Same}
use go_iot_client.Mitsubishi.Api.{
  int16_of, bits32_of, int16_body, bits32_body, string_body, write_value, write_body, finish_read,
  read_int16, read_int32, read_float, read_string, write,
}
use go_iot_client.Value.{Value, bool, byte, int16, uint16, int32, uint32, float32, string}

parsed-NoPanic : (o : Option ℕ) → NoPanic (parsed o)
parsed-NoPanic none = tt
parsed-NoPanic (some n) = tt

parse_upper-NoPanic : (s : List ℕ) → NoPanic (parse_upper s)
unfolding parse_upper
parse_upper-NoPanic [] = tt
parse_upper-NoPanic (c ∷ []) = tt
parse_upper-NoPanic (c ∷ d ∷ s) = ground (arith, parsed-NoPanic (parse_uint 65535 (d ∷ s)))

parse_d_address-NoPanic : (address : List ℕ) → NoPanic (parse_d_address address)
unfolding parse_d_address
parse_d_address-NoPanic address = parse_upper-NoPanic (trim_space (map to_upper address))

int16_of-NoPanic : (ws : List ℕ) → NoPanic (int16_of ws)
unfolding int16_of
int16_of-NoPanic ws = ground (arith, index-nth ws 0)

bits32_of-NoPanic : (ws : List ℕ) → NoPanic (bits32_of ws)
unfolding bits32_of
bits32_of-NoPanic ws = ground (arith, index-nth ws 0, index-nth ws 1)

-- A value that fits into 65535 words: anything but a string of more than 131070 bytes.
abbrev pub Fits : Value → Type 0
Fits (string v) = length v ≤ 131070
Fits _ = Unit

-- A method returns a result that says it succeeded exactly when it names no error; of the client only
-- the connection changes.
abbrev pub Answers : {N : Net} → Client N → Outcome Result × State N (Client N) → Type 0
Answers c r =
    Meets (λ a s'. ((a.is_succeed ≡ true) ↔ (a.err_msg ≡ none)) × SameSettings c s'.client)
      (λ _ _. ⊥) r

-- A failed read has the zero value.
abbrev pub AnswersT :
    {N : Net} {A : Type 0} → A → Client N → Outcome (ResultT A) × State N (Client N) → Type 0
AnswersT zero_value c r =
    Meets
      (λ a s'.
        ((a.is_succeed ≡ true) ↔ (a.err_msg ≡ none))
        × (a.is_succeed ≡ false → a.value ≡ zero_value)
        × SameSettings c s'.client)
      (λ _ _. ⊥) r

module _ (N : Net) (c : Client N) where
  report-Answers :
      (r : Outcome (Unit {0}) × State N (Client N))
      → Keeps (SameSettings c) r
      → Answers c (report N (λ e. fail e new_result) r)
  report-Answers (ok _, s) h = ground arith
  report-Answers (err e, s) h = ground arith
  report-Answers (panic, s) h = h

  finish_read-AnswersT :
      {A : Type 0} (z : A) (r : Outcome A × State N (Client N))
      → Keeps (SameSettings c) r
      → AnswersT z c (finish_read N z r)
  finish_read-AnswersT z (ok a, s) h = ground arith
  finish_read-AnswersT z (err e, s) h = ground arith
  finish_read-AnswersT z (panic, s) h = h

module _ (N : Net) (L : IsLawful N) (s : State N (Client N)) where
  -- A read of words, and what is made of them.
  words_then :
      {B : Type 0} (addr count : ℕ) (f : List ℕ → Outcome B)
      → ((ws : List ℕ) → NoPanic (f ws))
      → Same N L s (continue (read_words_from N addr count s) (λ ws. lift (f ws)))
  words_then addr count f k =
      continue-Meets (λ ws s'. (length ws ≡ count) × SameSettings s.client s'.client) _ _
        (read_words_from N addr count s) _ (read_words_from-Meets N L s addr count)
        λ ws s' h. lift-Keeps N (SameSettings s.client) s' h.1 (f ws) (k ws)

  address_then :
      {B : Type 0} (address : List ℕ) (f : ℕ → Call N B)
      → ((addr : ℕ) → Same N L s (f addr s))
      → Same N L s (continue (lift (parse_d_address address) s) f)
  address_then address f k =
      lift_then N L s (parse_d_address address) f (parse_d_address-NoPanic address) k

  reject_then :
      {B : Type 0} (test : Bool) (e : Error) (f : Unit {0} → Call N B)
      → Same N L s (f tt s)
      → Same N L s (continue (reject test e s) f)
  reject_then true e f k = refl
  reject_then false e f k = k

  int16_body-Same : (address : List ℕ) → Same N L s (int16_body N address s)
  unfolding int16_body
  int16_body-Same address =
      address_then address _ λ addr. words_then addr 1 int16_of int16_of-NoPanic

  bits32_body-Same : (address : List ℕ) → Same N L s (bits32_body N address s)
  unfolding bits32_body
  bits32_body-Same address =
      address_then address _ λ addr. words_then addr 2 bits32_of bits32_of-NoPanic

  string_body-Same : (address : List ℕ) (n : ℤ) → Same N L s (string_body N address n s)
  unfolding string_body
  string_body-Same address n =
      reject_then (not (is_positive n)) read_length_not_positive _
        (address_then address _ λ addr. words_then addr ((pos_part n + 1) / 2 % 65536) _ (λ _. tt))

  write_value-Same :
      (addr : ℕ) (value : Value) → Fits value → Same N L s (write_value N addr value s)
  unfolding write_value
  write_value-Same addr (bool v) h = write_words-Same N L s addr _ (omega arith)
  write_value-Same addr (byte v) h = write_words-Same N L s addr _ (omega arith)
  write_value-Same addr (int16 v) h = write_words-Same N L s addr _ (omega arith)
  write_value-Same addr (uint16 v) h = write_words-Same N L s addr _ (omega arith)
  write_value-Same addr (int32 v) h = write_words-Same N L s addr _ (omega arith)
  write_value-Same addr (uint32 v) h = write_words-Same N L s addr _ (omega arith)
  write_value-Same addr (float32 v) h = write_words-Same N L s addr _ (omega arith)
  write_value-Same addr (string v) h =
      write_words-Same N L s addr (bytes_to_words little v)
        (omega (arith, length-bytes_to_words little v))
  write_value-Same addr _ h = refl

  write_body-Same :
      (address : List ℕ) (value : Value) → Fits value → Same N L s (write_body N address value s)
  unfolding write_body
  write_body-Same address value h = address_then address _ λ addr. write_value-Same addr value h

-- On every connection that meets the documentation, whatever the PLC sends, each method returns a
-- result, with no panic, provided that a string to write has at most 131070 bytes. The result says
-- that it succeeded exactly when it names no error, a failed read has the zero value, and of the
-- client's fields only the connection changes.
pub mitsubishi_methods-Answer :
    (N : Net) (L : IsLawful N) (s : State N (Client N))
    → (address : List ℕ) (n : ℤ) (value : Value) → Fits value
    → AnswersT (pos 0) s.client (read_int16 N address s)
      × AnswersT (pos 0) s.client (read_int32 N address s)
      × AnswersT 0 s.client (read_float N address s)
      × AnswersT [] s.client (read_string N address n s)
      × Answers s.client (write N address value s)
unfolding read_int16 read_int32 read_float read_string write
mitsubishi_methods-Answer N L s address n value h = (
  finish_read-AnswersT N s.client (pos 0) (int16_body N address s) (int16_body-Same N L s address),
  finish_read-AnswersT N s.client (pos 0)
      ((bits32_body N address >>= λ b. lift (ok (signed 4294967296 b))) s)
      (continue-Meets (λ _ s'. SameSettings s.client s'.client) _ _ (bits32_body N address s) _
        (bits32_body-Same N L s address) (λ _ _ g. g)),
  finish_read-AnswersT N s.client 0 (bits32_body N address s) (bits32_body-Same N L s address),
  finish_read-AnswersT N s.client [] (string_body N address n s) (string_body-Same N L s address n),
  report-Answers N s.client (write_body N address value s) (write_body-Same N L s address value h),
)
