-- ===== src/Mitsubishi/Words.antt =====
-- `readWords` and `writeWords`: D registers as 16-bit words.
pub mod Safety
use go_iot_client.Base.{
  ℕ, ◌+◌, ◌*◌, ◌/◌, ◌%◌, List, [], ◌∷◌, ◌++◌, length, ltb, ◌==◌, if◌then◌else◌,
}
use go_iot_client.Base.Outcome.{Outcome, ok, err, ◌>>=◌, lift, bind, response_data_too_short}
use go_iot_client.Base.Words.{little, put_uint16, fill_words, read_words}
use go_iot_client.Net.{Net}
use go_iot_client.Mitsubishi.Client.{Client, Call, the_client}
use go_iot_client.Mitsubishi.Request.{send_request}

-- The first six bytes of a payload: the address, the code of the D registers, and the count.
abbrev pub device_range : ℕ → ℕ → List ℕ
device_range addr count =
    (addr % 256) ∷ (addr / 256 % 256) ∷ 0x00 ∷ 0xA8 ∷ (count % 256) ∷ (count / 256 % 256) ∷ []

unfoldable pub words_of : ℕ → List ℕ → Outcome (List ℕ)
words_of count resp =
    if ltb (length resp) (count * 2)
    then err (response_data_too_short (count * 2) (length resp))
    else read_words little count resp

-- The payload of `writeWords`: its buffer is made for `uint16(len(values))` words.
unfoldable pub write_payload : ℕ → List ℕ → Outcome (List ℕ)
write_payload addr values =
    let count = length values % 65536 in
    bind (fill_words little (count * 2) values) (λ words. ok (device_range addr count ++ words))

module _ (N : Net) where
  unfoldable pub read_words_from : ℕ → ℕ → Call N (List ℕ)
  read_words_from addr count =
      if count == 0
      then lift (ok [])
      else the_client N >>= λ c.
          send_request N 0x0401 0x0000 (device_range addr count) c.read_timeout >>= λ resp.
          lift (words_of count resp)

  unfoldable pub write_words : ℕ → List ℕ → Call N (Unit {0})
  write_words addr values = do
    payload ← lift (write_payload addr values)
    c ← the_client N
    _ ← send_request N 0x1401 0x0000 payload c.write_timeout
    lift (ok tt)
