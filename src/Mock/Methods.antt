-- ===== src/Mock/Methods.antt =====
-- What the Mitsubishi client writes to the mock PLC it reads back.
use go_iot_client.Base.{
  ℕ, ◌+◌, ◌/◌, ◌%◌, ◌<◌, ◌≡◌, refl, sym, ap, ◌∙◌, true, List, [], ◌∷◌, length, take, All, ltb,
  arith,
}
use mathlib.Core.Path.{subst}
use go_iot_client.Base.Int.{
  ℤ, pos, wrap, signed, InRange, signed-wrap_16, signed-wrap_32, wrap-lt_16, wrap-lt_32,
}
use go_iot_client.Base.Outcome.{Error, Outcome, ok, err, panic, lift, ◌>>=◌}
use go_iot_client.Base.Words.{IsByte, IsWord, little, words_to_bytes, bytes_to_words}
use go_iot_client.Base.Words.Laws.{
  length-bytes_to_words, take-words_to_bytes, bytes_to_words-IsWord,
}
use go_iot_client.Base.Slices.{index}
use go_iot_client.Value.{Value, int16, int32, float32, string}
use go_iot_client.Text.{trim_right, is_nul}
use go_iot_client.Core.{Result, ResultT, new_result}
use go_iot_client.Net.Stream.{stream}
use go_iot_client.Mitsubishi.Client.{Client, Call, report}
use go_iot_client.Mitsubishi.Client.Address.{parse_d_address}
use go_iot_client.Mitsubishi.Client.Address.Laws.{parse_d_address-le}
use go_iot_client.Net.Stream.Steps.{Answered, continue-Answered}
use go_iot_client.Mitsubishi.Words.{read_words_from, write_words}
use go_iot_client.Mitsubishi.Api.{
  int16_of, bits32_of, low_high, finish_read, int16_body, bits32_body, string_body, write_value,
  write_body, read_int16, read_int32, read_float, read_string, write,
}
use go_iot_client.Mock.{Server, cells, store}
use go_iot_client.Mock.Session.{mock_peer}
use go_iot_client.Mock.Memory.{cells-store}
use go_iot_client.Mock.Requests.{Mocked, linked, IsIdle, read_words_from-cells, write_words-store}

module _ (c : Client (stream mock_peer)) (d : Server) where
  report-Answered :
      (f : Error → Result) (r : Outcome (Unit {0}) × Mocked)
      → Answered mock_peer (ok tt) c d r
      → Answered mock_peer (ok new_result) c d (report (stream mock_peer) f r)
  report-Answered f (ok _, s) h = (refl, h.1, h.2, h.3)
  report-Answered f (err e, s) h = absurd (ground (arith, h.0))
  report-Answered f (panic, s) h = absurd (ground (arith, h.0))

  finish_read-Answered :
      {A : Type 0} (z a : A) (r : Outcome A × Mocked)
      → Answered mock_peer (ok a) c d r
      → Answered mock_peer
          (ok (record { result = new_result; value = a }))
          c
          d
          (finish_read (stream mock_peer) z r)
  finish_read-Answered z a (ok b, s) h = (ground (arith, h.0), h.1, h.2, h.3)
  finish_read-Answered z a (err e, s) h = absurd (ground (arith, h.0))
  finish_read-Answered z a (panic, s) h = absurd (ground (arith, h.0))

module _ (s : Mocked) (idle : IsIdle s) (address : List ℕ) (addr : ℕ)
    (parsed : parse_d_address address ≡ ok addr) where
  -- The PLC with the words stored.
  abbrev storing : List ℕ → Server
  storing values = record s.world.device { words = store s.world.device.words addr values }

  -- A write of a value that is sent as these words.
  write-storing :
      (value : Value) (values : List ℕ)
      → write_value (stream mock_peer) addr value s ≡ write_words (stream mock_peer) addr values s
      → length values < 32762
      → All IsWord values
      → Answered mock_peer
          (ok new_result)
          (linked s.client)
          (storing values)
          (write (stream mock_peer) address value s)
  unfolding write write_body
  write-storing value values sent small w =
      report-Answered (linked s.client) (storing values) _
        (write_body (stream mock_peer) address value s)
        (rw (parsed, sent)
          (write_words-store s idle addr (omega (arith, parse_d_address-le address parsed)) values
            small w))

  -- The words that were stored are read from then on.
  read_words_from-stored :
      (s' : Mocked) (values : List ℕ)
      → s'.client ≡ linked s.client
      → s'.world.device ≡ storing values
      → s'.world.inbox ≡ []
      → 0 < length values
      → length values < 32762
      → All IsWord values
      → Answered mock_peer
          (ok values)
          (linked s'.client)
          s'.world.device
          (read_words_from (stream mock_peer) addr (length values) s')
  read_words_from-stored s' values c d i some_words small w =
      let stored : cells s'.world.device.words addr (length values) ≡ values =
        ap (λ (e : Server). cells e.words addr (length values)) d
        ∙ cells-store s.world.device.words addr values
            (omega (arith, parse_d_address-le address parsed)) (omega arith) in
      subst
        (λ vs.
          Answered mock_peer (ok vs) (linked s'.client) s'.world.device
            (read_words_from (stream mock_peer) addr (length values) s'))
        stored
        (read_words_from-cells s' (i, ap (λ (e : Server). e.fail_next_request) d ∙ idle.1) addr
          (omega (arith, parse_d_address-le address parsed)) (length values) some_words
          (omega arith) (subst (All IsWord) (sym stored) w))

  -- The method that writes the value succeeds, and then the one that reads succeeds and has the value.
  abbrev pub ReadsBack : {A : Type 0} → Value → Call (stream mock_peer) (ResultT A) → A → Type 0
  ReadsBack value read a =
      let (r, s') = write (stream mock_peer) address value s in
      (r ≡ ok new_result) × ((read s').0 ≡ ok (record { result = new_result; value = a }))

  -- For a read whose body looks at the words that were stored.
  reads_back :
      {A B : Type 0} (z : A) (value : Value) (values : List ℕ) (f : List ℕ → Outcome B) (b : B)
      (body : Call (stream mock_peer) A) (a : A)
      → write_value (stream mock_peer) addr value s ≡ write_words (stream mock_peer) addr values s
      → 0 < length values
      → length values < 32762
      → All IsWord values
      → f values ≡ ok b
      → ((s' : Mocked)
          → Answered mock_peer (ok b) (linked s'.client) s'.world.device (
              (read_words_from (stream mock_peer) addr (length values) >>= λ words. lift (f words))
                s')
          → Answered mock_peer (ok a) (linked s'.client) s'.world.device (body s'))
      → ReadsBack value (λ s'. finish_read (stream mock_peer) z (body s')) a
  reads_back z value values f b body a sent some_words small w e k =
      let s' = (write (stream mock_peer) address value s).1 in
      let wrote = write-storing value values sent small w in
      (
        wrote.0,
        (finish_read-Answered (linked s'.client) s'.world.device z a (body s') (
            k s' (
              continue-Answered mock_peer values (ok b) (linked s'.client) (linked s'.client)
                s'.world.device s'.world.device _ (λ words. lift (f words))
                (read_words_from-stored s' values wrote.1 wrote.2 wrote.3 some_words small w)
                (λ _ c d i. (e, c, d, i))))).0,
      )

  int16-ReadsBack :
      (v : ℤ) → InRange 32768 v → ReadsBack (int16 v) (read_int16 (stream mock_peer) address) v
  unfolding read_int16 write_value int16_of index
  int16-ReadsBack v h =
      reads_back (pos 0) (int16 v) (wrap 65536 v ∷ []) int16_of v
        (int16_body (stream mock_peer) address) v refl (omega arith) (omega arith)
        (wrap-lt_16 v, tt) (ap ok (signed-wrap_16 v h)) (λ s' g. unfold int16_body in rw parsed g)

  bits32_of-low_high : (x : ℕ) → x < 4294967296 → bits32_of (low_high x) ≡ ok x
  unfolding bits32_of index
  bits32_of-low_high x h = ap ok (omega arith)

  float32-ReadsBack :
      (f : ℕ) → f < 4294967296 → ReadsBack (float32 f) (read_float (stream mock_peer) address) f
  unfolding read_float write_value
  float32-ReadsBack f h =
      reads_back 0 (float32 f) (low_high f) bits32_of f (bits32_body (stream mock_peer) address) f
        refl (omega arith) (omega arith) (omega arith, (omega arith, tt)) (bits32_of-low_high f h)
        (λ s' g. unfold bits32_body in rw parsed g)

  int32-ReadsBack :
      (x : ℤ) → InRange 2147483648 x → ReadsBack (int32 x) (read_int32 (stream mock_peer) address) x
  unfolding read_int32 write_value
  int32-ReadsBack x h =
      let bits = wrap 4294967296 x in
      reads_back (pos 0) (int32 x) (low_high bits) bits32_of bits
        (bits32_body (stream mock_peer) address >>= λ b. lift (ok (signed 4294967296 b))) x refl
        (omega arith) (omega arith) (omega arith, (omega arith, tt))
        (bits32_of-low_high bits (wrap-lt_32 x))
        (λ s' g.
          continue-Answered mock_peer bits (ok x) (linked s'.client) (linked s'.client)
            s'.world.device s'.world.device (bits32_body (stream mock_peer) address s') _
            (unfold bits32_body in rw parsed g) (λ _ c d i. (ap ok (signed-wrap_32 x h), c, d, i)))

  string-ReadsBack :
      (v : List ℕ)
      → All IsByte v
      → 0 < length v
      → length v < 65523
      → ReadsBack
          (string v)
          (read_string (stream mock_peer) address (pos (length v)))
          (trim_right is_nul v)
  unfolding read_string write_value
  string-ReadsBack v b some_bytes small =
      let words = bytes_to_words little v in
      reads_back [] (string v) words
        (λ ws. ok (trim_right is_nul (take (length v) (words_to_bytes little ws))))
        (trim_right is_nul v) (string_body (stream mock_peer) address (pos (length v)))
        (trim_right is_nul v) refl (omega (arith, length-bytes_to_words little v))
        (omega (arith, length-bytes_to_words little v)) (bytes_to_words-IsWord little v b)
        (ap (λ bs. ok (trim_right is_nul bs)) (take-words_to_bytes little v b))
        (λ s' g.
          let counted : (length v + 1) / 2 % 65536 ≡ length words =
            omega (arith, length-bytes_to_words little v) in
          let positive : ltb 0 (length v) ≡ true = ground arith in
          unfold string_body in rw (positive, parsed, counted) g)

  -- On a stream to a mock PLC that has no failure to inject, with nothing left to read and the client connected
  -- or not, for an address that parses: an `int16`, an `int32`, the 32 bits of a `float32` and a string of bytes,
  -- not empty and shorter than 65523, are written with success, and the read method of the type that is called
  -- next succeeds and has the value that was written, the string without the NULs at its end.
  pub methods_read_back :
      (v x : ℤ) (f : ℕ) (text : List ℕ)
      → InRange 32768 v
      → InRange 2147483648 x
      → f < 4294967296
      → All IsByte text
      → 0 < length text
      → length text < 65523
      → ReadsBack (int16 v) (read_int16 (stream mock_peer) address) v
        × ReadsBack (int32 x) (read_int32 (stream mock_peer) address) x
        × ReadsBack (float32 f) (read_float (stream mock_peer) address) f
        × ReadsBack
            (string text)
            (read_string (stream mock_peer) address (pos (length text)))
            (trim_right is_nul text)
  methods_read_back v x f text hv hx hf ht some_bytes small = (
    int16-ReadsBack v hv,
    int32-ReadsBack x hx,
    float32-ReadsBack f hf,
    string-ReadsBack text ht some_bytes small,
  )
