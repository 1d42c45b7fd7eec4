-- ===== src/Tests/Siemens.antt =====
-- The Siemens client on a controller of 10 bytes in one area.
use go_iot_client.Base.{
  ℕ, zero, suc, ◌+◌, ◌-◌, ◌≤◌, ◌<◌, ◌≡◌, ◌≢◌, ◌↔◌, refl, ap, Bool, true, false, Option, none, some,
  List, [], ◌∷◌, ◌++◌, length, length-append, replicate, take, drop, arith,
}
use go_iot_client.Base.Int.{pos, pos_part}
use go_iot_client.Base.Outcome.{fault, net, Error, Outcome, ok, err, panic, Meets, failed_after}
use go_iot_client.Value.{int16}
use go_iot_client.Text.{itoa}
use go_iot_client.Core.{normalize}
use go_iot_client.Core.Report.{Answers, AnswersT}
use go_iot_client.Siemens.Gos7.{Gos7, IsLawful}
use go_iot_client.Siemens.Address.{Area, area_db, area_m, Addr, area_of, parse_siemens_address}
use go_iot_client.Siemens.Address.Laws.{word, block_address, parse_siemens_address-itoa}
use go_iot_client.Siemens.Client.{Client, State, Call, new_siemens_client, with_retry}
use go_iot_client.Siemens.Client.Invariant.{
  IsConsistent, Kept, Linked, Unlinked, new_siemens_client-IsConsistent, with_retry-Meets,
}
use go_iot_client.Siemens.Api.{read_int16, read_int32, read_float, read_string, write, read_op}
use go_iot_client.Siemens.Api.Safety.{read_op-Operates, siemens_methods-Answer}

-- A read from `bytes` into a buffer of `n` bytes.
abbrev fill : List ℕ → ℕ → List ℕ
fill bytes n = take n (bytes ++ replicate n 0)

-- A controller whose memory is the world; dialing fails while `busy` is above 0.
pub record Memory : Type 0 where
  pub busy : ℕ
  pub memory : List ℕ

abbrev pub try : ℕ → Memory → Outcome (Unit {0}) × Memory
try zero w = (ok tt, w)
try (suc n) w = (err (net (fault 1)), record w { busy = n })

abbrev pub gos7 : Gos7
gos7 = record {
  World = Memory;
  Handler = Unit {0};
  connect = λ endpoint rack slot timeout w. try w.busy w;
  close = λ h w. (none, w);
  read = λ h area db start size buf w. ((none, fill (drop start w.memory) (length buf)), w);
  write = λ h area db start size payload w. (
    none,
    record w { memory = take start w.memory ++ (payload ++ drop (start + size) w.memory) },
  );
  sleep = λ t w. w;
}

take_zeros : (n m : ℕ) → n ≤ m → length (take n (replicate {A = ℕ} m 0)) ≡ n
take_zeros zero m h = refl
take_zeros (suc n) zero h = absurd (omega arith)
take_zeros (suc n) (suc m) h = ap suc (take_zeros n m (omega arith))

take_padded : (n m : ℕ) (bytes : List ℕ) → n ≤ m → length (take n (bytes ++ replicate m 0)) ≡ n
take_padded n m [] h = take_zeros n m h
take_padded zero m (b ∷ bytes) h = refl
take_padded (suc n) m (b ∷ bytes) h = ap suc (take_padded n m bytes (omega arith))

length-fill : (n : ℕ) (bytes : List ℕ) → length (fill bytes n) ≡ n
length-fill n bytes = take_padded n n bytes (omega arith)

try-returns : (n : ℕ) (w : Memory) → (try n w).0 ≢ panic
try-returns zero w = λ e. cc
try-returns (suc n) w = λ e. cc

pub gos7-IsLawful : IsLawful gos7
gos7-IsLawful = record {
  connect-returns = λ endpoint rack slot timeout w. try-returns w.busy w;
  read-length = λ h area db start size buf w. length-fill (length buf) (drop start w.memory);
}

abbrev siemens : Client gos7
siemens = new_siemens_client gos7 (b'p' ∷ b':' ∷ b'1' ∷ [])

-- The first dialing fails.
abbrev siemens_start : State gos7
siemens_start = record {
  self = siemens;
  world = record { busy = 1; memory = 0 ∷ 42 ∷ 1 ∷ 2 ∷ 3 ∷ 4 ∷ 5 ∷ 6 ∷ 7 ∷ 8 ∷ [] };
  buf = 0 ∷ 0 ∷ [];
}

siemens-IsConsistent : IsConsistent siemens
siemens-IsConsistent = new_siemens_client-IsConsistent gos7 (b'p' ∷ b':' ∷ b'1' ∷ [])

abbrev address : List ℕ
address = b'M' ∷ b'0' ∷ []

abbrev start_of_m : Addr
start_of_m = record { area = area_m; db = 0; start = 0 }

with_retry-Meets_example :
    Meets
      (λ _ s'. Linked siemens s'.self × (length s'.buf ≡ 2))
      (λ e s'.
        (Unlinked siemens s'.self × (length s'.buf ≡ 2))
        × ((last : Error) × (e
              ≡ failed_after (pos_part (normalize siemens.retry).max_retries + 1) last)))
      (with_retry gos7 (read_op gos7 start_of_m 2) siemens_start)
with_retry-Meets_example =
    with_retry-Meets gos7 gos7-IsLawful siemens_start (read_op gos7 start_of_m 2)
      siemens-IsConsistent (read_op-Operates gos7 gos7-IsLawful siemens 2 start_of_m 2)

siemens_methods-Answer_example :
    let K = λ (s' : State gos7). Kept siemens s'.self in
    AnswersT (pos 0) K (read_int16 gos7 address siemens_start)
    × AnswersT (pos 0) K (read_int32 gos7 address siemens_start)
    × AnswersT 0 K (read_float gos7 address siemens_start)
    × AnswersT [] K (read_string gos7 address (pos 3) siemens_start)
    × Answers K (write gos7 address (int16 (pos 7)) siemens_start)
siemens_methods-Answer_example =
    siemens_methods-Answer gos7 gos7-IsLawful siemens_start siemens-IsConsistent address (pos 3)
      (int16 (pos 7))

parse_siemens_address-itoa_example :
    (parse_siemens_address (block_address 65535 word 10)
      ≡ ok (record { area = area_db; db = 65535; start = 10 }))
    × (parse_siemens_address (b'M' ∷ itoa (pos 10))
        ≡ ok (record { area = area_m; db = 0; start = 10 }))
parse_siemens_address-itoa_example =
    parse_siemens_address-itoa 65535 word b'M' area_m 10 (omega arith) (omega arith) refl
      (omega arith)

-- A read goes through the failed dialing to the controller's bytes.
reads_42 :
    (read_int16 gos7 address siemens_start).0
    ≡ ok (record {
      result = record { is_succeed = true; err_msg = none; err_code = 0 };
      value = pos 42;
    })
unfolding read_int16 go_iot_client.Siemens.Api.int16_body go_iot_client.Siemens.Api.int16_of
    go_iot_client.Siemens.Api.read_bytes parse_siemens_address
    go_iot_client.Siemens.Address.parse_upper go_iot_client.Text.strip_prefix
    go_iot_client.Text.trim_space go_iot_client.Text.trim_right go_iot_client.Text.trim_left
    go_iot_client.Text.to_upper go_iot_client.Text.atoi go_iot_client.Text.parse_uint
    go_iot_client.Text.parse_digits with_retry go_iot_client.Retry.attempts normalize
    new_siemens_client go_iot_client.Siemens.Client.once go_iot_client.Base.Slices.word_at
    go_iot_client.Siemens.Address.offset_text go_iot_client.Siemens.Client.close_locked
    go_iot_client.Siemens.Client.ensure_connected go_iot_client.Siemens.Client.open_locked
    go_iot_client.Text.split
reads_42 = refl
