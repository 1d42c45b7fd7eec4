-- ===== src/Modbus/Frame/Stream.antt =====
-- The readers of the three framings on a stream.
use go_iot_client.Base.{
  ℕ, zero, suc, ◌+◌, ◌<◌, ◌≡◌, refl, sym, true, false, List, [], ◌∷◌, ◌++◌, length, length-append,
  append-nil, append_assoc, All, ◌==◌, arith,
}
use mathlib.Core.Path.{subst}
use go_iot_client.Base.Words.{IsByte}
use go_iot_client.Base.Slices.{index}
use go_iot_client.Base.Xor.{top_bit}
use go_iot_client.Net.Full.{read_full}
use go_iot_client.Net.Stream.{Peer, stream}
use go_iot_client.Net.Stream.Laws.{Reads, line, read_full-Reads}
use go_iot_client.Net.Stream.Steps.{read_then, bytes_then}
use go_iot_client.Modbus.Frame.{
  is_exception, is_read, is_write, rtu_exception, rtu_counted, rtu_echo, rtu_rest,
  read_rtu_response, ascii_loop,
}

-- The PDUs of a device in reply to the functions that the client knows: an exception, the data of a
-- read with the count of their bytes, the echo of a write.
pub data IsReply : List ℕ → Type 0 where
  exception : (f code : ℕ) → f < 128 → IsByte code → IsReply ((f + 128) ∷ code ∷ [])
  counted :
      (f : ℕ) (xs : List ℕ)
      → is_read f ≡ true
      → All IsByte xs
      → length xs < 251
      → IsReply (f ∷ length xs ∷ xs)
  echo :
      (f a b c d : ℕ)
      → is_write f ≡ true
      → All IsByte (a ∷ b ∷ c ∷ d ∷ [])
      → IsReply (f ∷ a ∷ b ∷ c ∷ d ∷ [])

pub exception_bit : (f : ℕ) → f < 128 → is_exception (f + 128) ≡ true
exception_bit f h = ground (arith, top_bit (f + 128) (omega arith))

no_exception_bit : (f : ℕ) → f < 128 → is_exception f ≡ false
no_exception_bit f h = ground (arith, top_bit f (omega arith))

pub is_read-small : (f : ℕ) → is_read f ≡ true → f < 5
is_read-small f h = ground arith

pub is_write-small : (f : ℕ) → is_write f ≡ true → f < 17
is_write-small f h = ground arith

is_write-no_read : (f : ℕ) → is_write f ≡ true → is_read f ≡ false
is_write-no_read f h = ground arith

module _ (P : Peer) (unit_id lo hi : ℕ) (d : P.Device) where
  -- `readRTUResponse` reads the frame of a reply to its end.
  pub read_rtu_response-Reads :
      (reply pace : List ℕ)
      → IsReply reply
      → Reads P
          ((unit_id ∷ reply) ++ (lo ∷ hi ∷ []))
          []
          d
          (read_rtu_response (stream P) tt (line P d ((unit_id ∷ reply) ++ (lo ∷ hi ∷ [])) pace))
  unfolding read_rtu_response index rtu_rest rtu_exception rtu_counted rtu_echo
  read_rtu_response-Reads reply pace (exception f code small b) =
      let end = code ∷ lo ∷ hi ∷ [] in
      let whole = Reads P (unit_id ∷ (f + 128) ∷ end) [] d in
      bytes_then P 2 (unit_id ∷ (f + 128) ∷ []) end pace d _ whole refl (λ pace'.
        rw (exception_bit f small)
          (bytes_then P 3 end [] pace' d _ whole refl (λ _. (refl, refl, refl))))
  read_rtu_response-Reads reply pace (echo f a b c e w bs) =
      let end = a ∷ b ∷ c ∷ e ∷ lo ∷ hi ∷ [] in
      let whole = Reads P (unit_id ∷ f ∷ end) [] d in
      bytes_then P 2 (unit_id ∷ f ∷ []) end pace d _ whole refl (λ pace'.
        rw (no_exception_bit f (omega (arith, is_write-small f w)), is_write-no_read f w, w)
          (bytes_then P 6 end [] pace' d _ whole refl (λ _. (refl, refl, refl))))
  read_rtu_response-Reads reply pace (counted f xs r bs short) =
      let end = xs ++ (lo ∷ hi ∷ []) in
      let whole = Reads P (unit_id ∷ f ∷ length xs ∷ end) [] d in
      bytes_then P 2 (unit_id ∷ f ∷ []) (length xs ∷ end) pace d _ whole refl (λ pace'.
        rw (no_exception_bit f (omega (arith, is_read-small f r)), r)
          (bytes_then P 1 (length xs ∷ []) end pace' d _ whole refl (λ pace''.
            read_then P end [] d _ whole
              (read_full (stream P) tt (length xs + 2) (line P d end pace''))
              (read_full-Reads P (length xs + 2) end [] _ (length-append xs (lo ∷ hi ∷ []))
                (sym (append-nil end)))
              (λ _. (refl, refl, refl)))))

module _ (P : Peer) (d : P.Device) where
  -- `readASCIIResponseLine` reads up to the line feed.
  pub ascii_loop-Reads :
      (room : ℕ) (out xs pace : List ℕ)
      → All (λ c. (c == 10) ≡ false) xs
      → length xs < room
      → Reads P
          (out ++ (xs ++ (10 ∷ [])))
          []
          d
          (ascii_loop (stream P) tt room out (line P d (xs ++ (10 ∷ [])) pace))
  unfolding ascii_loop index
  ascii_loop-Reads zero out xs pace h l = absurd (omega arith)
  ascii_loop-Reads (suc room) out [] pace h l =
      bytes_then P 1 (10 ∷ []) [] pace d _ (Reads P (out ++ (10 ∷ [])) [] d) refl
        (λ _. (refl, refl, refl))
  ascii_loop-Reads (suc room) out (x ∷ xs) pace h l =
      let end = xs ++ (10 ∷ []) in
      bytes_then P 1 (x ∷ []) end pace d _ (Reads P (out ++ (x ∷ end)) [] d) refl (λ pace'. rw h.0 (
        subst
          (λ ys.
            Reads P ys [] d (ascii_loop (stream P) tt room (out ++ (x ∷ [])) (line P d end pace')))
          (append_assoc out (x ∷ []) end)
          (ascii_loop-Reads room (out ++ (x ∷ [])) xs pace' h.1 (omega arith))))
