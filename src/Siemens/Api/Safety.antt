-- ===== src/Siemens/Api/Safety.antt =====
-- Every method returns a result, whatever gos7 reports.
use go_iot_client.Base.{
  ◌∙◌, ℕ, zero, suc, ◌≡◌, refl, Bool, true, false, not, ◌||◌, Option, none, some, List, [], length,
  replicate, ltb, arith,
}
use go_iot_client.Base.Int.{ℤ, pos, pos_part, is_positive}
use go_iot_client.Base.Words.{big}
use go_iot_client.Base.Slices.{word_at-nth, dword_at-NoPanic}
use go_iot_client.Base.Outcome.{
  Error, Outcome, ok, err, panic, lift, reject, length_not_in_range, continue, NoPanic, Meets,
  continue-Meets, weaken-Meets,
}
use go_iot_client.Core.Report.{Answers, AnswersT, report-Answers, finish_read-AnswersT}
use go_iot_client.Siemens.Gos7.{Gos7, IsLawful}
use go_iot_client.Siemens.Address.{Addr, parse_siemens_address}
use go_iot_client.Siemens.Address.Safety.{parse_siemens_address-NoPanic}
use go_iot_client.Siemens.Client.{Client, State, Call, with_retry}
use go_iot_client.Siemens.Client.Invariant.{IsConsistent, Kept, Linked, Operates, with_retry-Meets}
use go_iot_client.Siemens.Api.{
  bytes_of_value, read_on, read_op, write_on, write_op, the_buf, read_bytes, write_bytes, int16_of,
  bits32_of, int32_of, int16_body, int32_body, bits32_body, string_body, write_body, read_int16,
  read_int32, read_float, read_string, write,
}
use go_iot_client.Value.{Value, bool}

bytes_of_value-NoPanic : (v : Value) → NoPanic (bytes_of_value v)
unfolding bytes_of_value
bytes_of_value-NoPanic (bool v) = tt
bytes_of_value-NoPanic _ = tt

length-replicate : (n : ℕ) → length (replicate {A = ℕ} n 0) ≡ n
length-replicate zero = refl
length-replicate (suc n) = omega (arith, length-replicate n)

module _ (G : Gos7) (L : IsLawful G) (c : Client G) (n : ℕ) where
  pub read_op-Operates : (a : Addr) (size : ℕ) → Operates G L c n (read_op G a size)
  read_op-Operates a size s h = by_client s.self.client refl
    where
      by_client :
          (o : Option G.Handler)
          → s.self.client ≡ o
          → Meets
              (λ _ s'. Linked c s'.self × (length s'.buf ≡ n))
              (λ _ s'. Linked c s'.self × (length s'.buf ≡ n))
              (read_on G o a size s)
      by_client none p = absurd (ground arith)
      by_client (some x) p = ground (arith, L.read-length x a.area a.db a.start size s.buf s.world)

  write_op-Operates : (a : Addr) (payload : List ℕ) → Operates G L c n (write_op G a payload)
  write_op-Operates a payload s h = by_client s.self.client refl
    where
      by_client :
          (o : Option G.Handler)
          → s.self.client ≡ o
          → Meets
              (λ _ s'. Linked c s'.self × (length s'.buf ≡ n))
              (λ _ s'. Linked c s'.self × (length s'.buf ≡ n))
              (write_on G o a payload s)
      by_client none p = absurd (ground arith)
      by_client (some x) p = ground arith

module _ (G : Gos7) (L : IsLawful G) (s : State G) (v : IsConsistent s.self) where
  abbrev Stays : State G → Type 0
  Stays s' = Kept s.self s'.self

  abbrev Keep : {A : Type 0} → Outcome A × State G → Type 0
  Keep r = Meets (λ _ s'. Stays s') (λ _ s'. Stays s') r

  same : Stays s
  same = (refl, v)

  lift_then :
      {A B : Type 0} (r : Outcome A) (f : A → Call G B)
      → NoPanic r
      → ((a : A) → Keep (f a s))
      → Keep (continue (lift r s) f)
  lift_then (ok a) f h k = k a
  lift_then (err e) f h k = same
  lift_then panic f h k = h

  reject_then :
      {B : Type 0} (test : Bool) (e : Error) (f : Unit {0} → Call G B)
      → Keep (f tt s)
      → Keep (continue (reject test e s) f)
  reject_then true e f k = same
  reject_then false e f k = k

  -- A read hands over as many bytes as were asked for.
  pub read_bytes-Meets :
      (address : List ℕ) (size : ℕ)
      → Meets
          (λ buf s'. (length buf ≡ size) × Stays s')
          (λ _ s'. Stays s')
          (read_bytes G address size s)
  unfolding read_bytes
  read_bytes-Meets address size =
      continue-Meets (λ (_ : Addr) s'. s' ≡ s) _ (λ _ s'. Stays s')
        (lift (parse_siemens_address address) s) _
        (ground (arith, parse_siemens_address-NoPanic address, same)) λ a s' e. rw e (buffered a)
    where
      fresh : State G
      fresh = record s { buf = replicate size 0 }

      size_is : length fresh.buf ≡ size
      size_is = length-replicate size

      buffered :
          (a : Addr)
          → Meets
              (λ buf s'. (length buf ≡ size) × Stays s')
              (λ _ s'. Stays s')
              (continue (with_retry G (read_op G a size) fresh) (λ _. the_buf G))
      buffered a =
          continue-Meets (λ (_ : Unit {0}) s'. Stays s' × (length s'.buf ≡ size))
            (λ buf s'. (length buf ≡ size) × Stays s') (λ _ s'. Stays s')
            (with_retry G (read_op G a size) fresh) (λ _. the_buf G)
            (weaken-Meets _ (λ _ s'. Stays s' × (length s'.buf ≡ size)) _ (λ _ s'. Stays s')
              (with_retry G (read_op G a size) fresh)
              (with_retry-Meets G L fresh (read_op G a size) v
                (read_op-Operates G L s.self (length fresh.buf) a size))
              (λ _ _ g. (g.0.0, g.1 ∙ size_is)) (λ _ _ g. g.0.0.0))
            (λ _ s' g. (g.1, g.0))

  write_bytes-Keeps : (address payload : List ℕ) → Keep (write_bytes G address payload s)
  unfolding write_bytes
  write_bytes-Keeps address payload =
      lift_then (parse_siemens_address address) _ (parse_siemens_address-NoPanic address) λ a.
        weaken-Meets _ (λ _ s'. Stays s') _ (λ _ s'. Stays s')
          (with_retry G (write_op G a payload) s)
          (with_retry-Meets G L s (write_op G a payload) v
            (write_op-Operates G L s.self (length s.buf) a payload))
          (λ _ _ g. g.0.0) (λ _ _ g. g.0.0.0)

  bytes_then :
      {B : Type 0} (address : List ℕ) (size : ℕ) (f : List ℕ → Call G B)
      → ((buf : List ℕ) (s' : State G) → length buf ≡ size → Stays s' → Keep (f buf s'))
      → Keep (continue (read_bytes G address size s) f)
  bytes_then address size f k =
      continue-Meets (λ buf s'. (length buf ≡ size) × Stays s') _ _ (read_bytes G address size s) f
        (read_bytes-Meets address size) (λ buf s' h. k buf s' h.0 h.1)

  int16_body-Keeps : (address : List ℕ) → Keep (int16_body G address s)
  unfolding int16_body int16_of
  int16_body-Keeps address =
      bytes_then address 2 _ λ buf s' e h. ground (arith, word_at-nth big buf 0)

  bits32_body-Keeps : (address : List ℕ) → Keep (bits32_body G address s)
  unfolding bits32_body bits32_of
  bits32_body-Keeps address =
      bytes_then address 4 _ λ buf s' e h. ground (arith, dword_at-NoPanic big buf 0)

  int32_body-Keeps : (address : List ℕ) → Keep (int32_body G address s)
  unfolding int32_body int32_of bits32_of
  int32_body-Keeps address =
      bytes_then address 4 _ λ buf s' e h. ground (arith, dword_at-NoPanic big buf 0)

  string_body-Keeps : (address : List ℕ) (n : ℤ) → Keep (string_body G address n s)
  unfolding string_body
  string_body-Keeps address n =
      reject_then (not (is_positive n) || ltb 65535 (pos_part n)) length_not_in_range _
        (bytes_then address (pos_part n) _ λ buf s' e h. h)

  write_body-Keeps : (address : List ℕ) (value : Value) → Keep (write_body G address value s)
  unfolding write_body
  write_body-Keeps address value =
      lift_then (bytes_of_value value) _ (bytes_of_value-NoPanic value) (write_bytes-Keeps address)

-- Whatever gos7 reports of its reads and writes, and where its dialing returns and its reads keep the
-- length of the buffer, each method of a consistent client returns a result, with no panic. The result
-- says that it succeeded exactly when it names no error, a failed read has the zero value, no setting of
-- the client changes, and it stays consistent.
pub siemens_methods-Answer :
    (G : Gos7) (L : IsLawful G) (s : State G)
    → IsConsistent s.self
    → (address : List ℕ) (n : ℤ) (value : Value)
    → let K = λ (s' : State G). Kept s.self s'.self in
      AnswersT (pos 0) K (read_int16 G address s)
      × AnswersT (pos 0) K (read_int32 G address s)
      × AnswersT 0 K (read_float G address s)
      × AnswersT [] K (read_string G address n s)
      × Answers K (write G address value s)
unfolding read_int16 read_int32 read_float read_string write
siemens_methods-Answer G L s v address n value = (
  finish_read-AnswersT (pos 0) (Stays G L s v) (int16_body G address s)
      (int16_body-Keeps G L s v address),
  finish_read-AnswersT (pos 0) (Stays G L s v) (int32_body G address s)
      (int32_body-Keeps G L s v address),
  finish_read-AnswersT 0 (Stays G L s v) (bits32_body G address s)
      (bits32_body-Keeps G L s v address),
  finish_read-AnswersT [] (Stays G L s v) (string_body G address n s)
      (string_body-Keeps G L s v address n),
  report-Answers (Stays G L s v) (write_body G address value s)
      (write_body-Keeps G L s v address value),
)
