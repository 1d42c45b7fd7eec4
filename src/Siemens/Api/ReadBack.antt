-- ===== src/Siemens/Api/ReadBack.antt =====
-- What the methods write through a gos7 that reaches its controller they read back.
use go_iot_client.Base.{
  ℕ, zero, suc, ◌≤◌, ◌<◌, ◌≡◌, refl, ap, ◌∙◌, false, not, ◌||◌, List, [], length, replicate, All,
  ltb, arith,
}
use go_iot_client.Base.Int.{
  ℤ, pos, wrap, InRange, signed-wrap_16, signed-wrap_32, wrap-lt_16, wrap-lt_32,
}
use go_iot_client.Base.Outcome.{
  Error, Outcome, ok, err, panic, ◌>>=◌, Meets, continue-Meets, weaken-Meets,
}
use go_iot_client.Base.Words.{IsByte, big, put_uint16, put_uint32}
use go_iot_client.Base.Slices.{word_at-put_uint16, dword_at-put_uint32}
use go_iot_client.Text.{trim_right, is_nul}
use go_iot_client.Value.{Value, int16, int32, float32, string}
use go_iot_client.Core.{Result, ResultT, new_result}
use go_iot_client.Core.Report.{report, finish_read}
use go_iot_client.Siemens.Gos7.{Gos7}
use go_iot_client.Siemens.Address.{Area, Addr, parse_siemens_address}
use go_iot_client.Siemens.Client.{State, Call, with_retry}
use go_iot_client.Siemens.Client.Invariant.{IsConsistent}
use go_iot_client.Siemens.Api.{
  bytes_of_value, read_op, write_op, the_buf, read_bytes, write_bytes, int16_of, bits32_of,
  int32_of, int16_body, int32_body, bits32_body, string_body, write_body, read_int16, read_int32,
  read_float, read_string, write,
}
use go_iot_client.Siemens.Api.Store.{IsStore, Reached, write-Stored, read-Stored}

module _ {S : Type 0} where
  -- A call that returns this value.
  abbrev pub Returns : {A : Type 0} → A → Outcome A × S → Type 0
  Returns a r = Meets (λ x _. x ≡ a) (λ _ _. ⊥) r

  report-Meets :
      (P : S → Type 0) (f : Error → Result) (r : Outcome (Unit {0}) × S)
      → Meets (λ _ s. P s) (λ _ _. ⊥) r
      → Meets (λ a s. (a ≡ new_result) × P s) (λ _ _. ⊥) (report f r)
  report-Meets P f (ok x, s) h = (refl, h)
  report-Meets P f (err e, s) h = absurd h
  report-Meets P f (panic, s) h = absurd h

  finish_read-Returns :
      {A : Type 0} (z a : A) (r : Outcome A × S)
      → Returns a r
      → Returns (record { result = new_result; value = a }) (finish_read z r)
  finish_read-Returns z a (ok x, s) h = ap (λ y. record { result = new_result; value = y }) h
  finish_read-Returns z a (err e, s) h = absurd h
  finish_read-Returns z a (panic, s) h = absurd h

length-replicate : (n : ℕ) → length (replicate {A = ℕ} n 0) ≡ n
length-replicate zero = refl
length-replicate (suc n) = ap suc (length-replicate n)

module _ (G : Gos7) (Works : G.World → Type 0) (memory : G.World → Area → ℕ → ℕ → ℕ → List ℕ)
    (store : IsStore G Works memory) (s : State G) (v : IsConsistent s.self) (w : Works s.world)
    (address : List ℕ) (a : Addr) (parsed : parse_siemens_address address ≡ ok a)
    (fits : a.start < 65536) where
  -- The method that writes the value succeeds, and then the one that reads succeeds and has the value.
  abbrev pub ReadsBack : {A : Type 0} → Value → Call G (ResultT A) → A → Type 0
  ReadsBack value read b =
      Meets
        (λ r s'. (r ≡ new_result) × Returns (record { result = new_result; value = b }) (read s'))
        (λ _ _. ⊥) (write G address value s)

  abbrev Holds : List ℕ → State G → Type 0
  Holds payload s' =
      Reached G Works memory store s'
      × (memory s'.world a.area a.db a.start (length payload) ≡ payload)

  read_bytes-Returns :
      (payload : List ℕ) (s' : State G)
      → Holds payload s'
      → length payload ≤ 65535
      → Returns payload (read_bytes G address (length payload) s')
  unfolding read_bytes
  read_bytes-Returns payload s' g small =
      let fresh = record s' { buf = replicate (length payload) 0 } in
      rw parsed (
        continue-Meets (λ _ t. t.buf ≡ memory s'.world a.area a.db a.start (length payload)) _ _
          (with_retry G (read_op G a (length payload)) fresh) (λ _. the_buf G)
          (read-Stored G Works memory store a fits (length payload) fresh g.0 small
            (length-replicate (length payload)))
          (λ _ t e. e ∙ g.1))

  reads_back :
      {A : Type 0} (z : A) (value : Value) (payload : List ℕ) (body : Call G A) (b : A)
      → bytes_of_value value ≡ ok payload
      → All IsByte payload
      → length payload ≤ 65535
      → ((s' : State G)
          → Returns payload (read_bytes G address (length payload) s')
          → Returns b (body s'))
      → ReadsBack value (λ s'. finish_read z (body s')) b
  unfolding write write_body write_bytes
  reads_back z value payload body b coded bs small k =
      rw (coded, parsed)
        (report-Meets
          (λ s'. Returns (record { result = new_result; value = b }) (finish_read z (body s'))) _
          (with_retry G (write_op G a payload) s)
          (weaken-Meets (λ _ s'. Holds payload s') _ (λ _ _. ⊥) _
            (with_retry G (write_op G a payload) s)
            (write-Stored G Works memory store a fits payload s v w bs small)
            (λ _ s' g.
              finish_read-Returns z b (body s') (k s' (read_bytes-Returns payload s' g small)))
            (λ _ _ x. x)))

  -- What is made of the bytes that were read.
  decoded :
      {A : Type 0} (payload : List ℕ) (f : List ℕ → Call G A) (b : A) (s' : State G)
      → Returns payload (read_bytes G address (length payload) s')
      → ((t : State G) → Returns b (f payload t))
      → Returns b ((read_bytes G address (length payload) >>= f) s')
  decoded payload f b s' g k =
      continue-Meets (λ buf _. buf ≡ payload) _ _ (read_bytes G address (length payload) s') f g
        (λ buf t e. rw e (k t))

  int16-ReadsBack : (x : ℤ) → InRange 32768 x → ReadsBack (int16 x) (read_int16 G address) x
  unfolding read_int16 int16_body int16_of bytes_of_value
  int16-ReadsBack x h =
      let payload = put_uint16 big (wrap 65536 x) in
      reads_back (pos 0) (int16 x) payload (int16_body G address) x refl (omega arith) (omega arith)
        (λ s' g.
          decoded payload _ x s' g
            (λ t. rw (word_at-put_uint16 big (wrap 65536 x) (wrap-lt_16 x)) (signed-wrap_16 x h)))

  bits32_body-Returns :
      (f : ℕ) (s' : State G)
      → f < 4294967296
      → Returns (put_uint32 big f) (read_bytes G address 4 s')
      → Returns f (bits32_body G address s')
  unfolding bits32_body bits32_of
  bits32_body-Returns f s' h g =
      decoded (put_uint32 big f) _ f s' g (λ t. rw (dword_at-put_uint32 big f h) refl)

  float32-ReadsBack : (f : ℕ) → f < 4294967296 → ReadsBack (float32 f) (read_float G address) f
  unfolding read_float bytes_of_value
  float32-ReadsBack f h =
      reads_back 0 (float32 f) (put_uint32 big f) (bits32_body G address) f refl (omega arith)
        (omega arith) (λ s' g. bits32_body-Returns f s' h g)

  int32-ReadsBack : (x : ℤ) → InRange 2147483648 x → ReadsBack (int32 x) (read_int32 G address) x
  unfolding read_int32 int32_body int32_of bits32_of bytes_of_value
  int32-ReadsBack x h =
      let bits = wrap 4294967296 x in
      reads_back (pos 0) (int32 x) (put_uint32 big bits) (int32_body G address) x refl (omega arith)
        (omega arith)
        (λ s' g.
          decoded (put_uint32 big bits) _ x s' g
            (λ t. rw (dword_at-put_uint32 big bits (wrap-lt_32 x)) (signed-wrap_32 x h)))

  string-ReadsBack :
      (text : List ℕ)
      → All IsByte text
      → 0 < length text
      → length text ≤ 65535
      → ReadsBack (string text) (read_string G address (pos (length text))) (trim_right is_nul text)
  unfolding read_string bytes_of_value
  string-ReadsBack text bs some_bytes small =
      reads_back [] (string text) text (string_body G address (pos (length text)))
        (trim_right is_nul text) refl bs small
        (λ s' g.
          let accepted : (not (ltb 0 (length text)) || ltb 65535 (length text)) ≡ false =
            ground arith in
          unfold string_body in
          rw accepted (decoded text _ (trim_right is_nul text) s' g (λ t. refl)))

  -- Through a gos7 that reaches its controller, for a consistent client, connected or not, and an address that
  -- parses to an offset of 16 bits: an `int16`, an `int32`, the 32 bits of a `float32` and a string of 1 to 65535 bytes
  -- are written with success, and the read method of the type that is called next succeeds and has the value
  -- that was written, the string without the NULs at its end.
  pub siemens_methods_read_back :
      (i x : ℤ) (f : ℕ) (text : List ℕ)
      → InRange 32768 i
      → InRange 2147483648 x
      → f < 4294967296
      → All IsByte text
      → 0 < length text
      → length text ≤ 65535
      → ReadsBack (int16 i) (read_int16 G address) i
        × ReadsBack (int32 x) (read_int32 G address) x
        × ReadsBack (float32 f) (read_float G address) f
        × ReadsBack
            (string text)
            (read_string G address (pos (length text)))
            (trim_right is_nul text)
  siemens_methods_read_back i x f text hi hx hf ht some_bytes small = (
    int16-ReadsBack i hi,
    int32-ReadsBack x hx,
    float32-ReadsBack f hf,
    string-ReadsBack text ht some_bytes small,
  )
