-- ===== src/Modbus/Sessions.antt =====
-- Calls in any order, on two clients in two wire modes.
use go_iot_client.Base.{ℕ, refl, sym, ◌∙◌, List, [], ◌∷◌, inl, inr, Option-cases}
use go_iot_client.Base.Int.{pos}
use go_iot_client.Base.Outcome.{Outcome, ok}
use go_iot_client.Base.Alike.{Alike, continue-Alike}
use go_iot_client.Value.{other}
use go_iot_client.Core.{new_result}
use go_iot_client.Iot.{
  Request, to_open, to_close, to_read_int16, to_read_int32, to_read_float, to_read_string, to_write,
  Reply, done, of_int, of_bits, of_text, replied, request, requests,
}
use go_iot_client.Net.{State}
use go_iot_client.Net.Stream.{Peer, stream}
use go_iot_client.Modbus.Client.{Client, close_locked, connect, open_, close}
use go_iot_client.Modbus.Exchange.Stream.{dial_by-stream}
use go_iot_client.Modbus.Exchange.Refines.{Models, close_locked-Models}
use go_iot_client.Modbus.Registers.Equivalent.{behind, Match, IsPair}
use go_iot_client.Modbus.Api.{read_int16, read_int32, read_float, read_string, write}
use go_iot_client.Modbus.Api.Equivalent.{methods-equivalent}
use go_iot_client.Modbus.Reliable.{modbus_client}

module _ (P : Peer) (serve : List ℕ → P.Device → List ℕ × P.Device) (c : Client (stream P))
    (s : State (stream P) (Client (stream P))) (d : P.Device) (m : Models P serve c s d) where
  -- On a stream `Open` succeeds.
  open-Models : Alike (Models P serve c) (open_ (stream P) s) (ok new_result, d)
  unfolding open_ connect
  open-Models =
      let s' = close_locked (stream P) s in
      let m' = close_locked-Models P serve c s d m in
      rw (dial_by-stream P s'.client.dial s'.client s'.world m'.0.1) (refl, m')

  -- So does `Close`.
  close-Models : Alike (Models P serve c) (close (stream P) s) (ok new_result, d)
  unfolding close
  close-Models = elim (Option-cases s.client.conn) [
    | inl p ↦ rw p (refl, m)
    | inr (x, p) ↦ rw p (refl, m)
  ]

module _ {D : Type 0} (answer answer' : List ℕ → D → List ℕ × D) (serve : List ℕ → D → List ℕ × D)
    (c : Client (behind answer)) (c' : Client (behind answer')) where
  -- Two calls that are both as one on the device are alike.
  through_device :
      {A : Type 0} (r : Outcome A × State (behind answer) (Client (behind answer)))
      (r' : Outcome A × State (behind answer') (Client (behind answer'))) (q : Outcome A × D)
      → Alike (Models (record { Device = D; answer = answer }) serve c) r q
      → Alike (Models (record { Device = D; answer = answer' }) serve c') r' q
      → Alike (Match answer answer' serve c c') r r'
  through_device r r' q h k = (h.0 ∙ sym k.0, (h.1.0, k.1.0, h.1.1 ∙ sym k.1.1))

  replied-Alike :
      {A : Type 0} (reply : A → Reply)
      (r : Outcome A × State (behind answer) (Client (behind answer)))
      (r' : Outcome A × State (behind answer') (Client (behind answer')))
      → Alike (Match answer answer' serve c c') r r'
      → Alike (Match answer answer' serve c c') (replied reply r) (replied reply r')
  replied-Alike reply r r' h =
      continue-Alike (Match answer answer' serve c c') r r' _ _ h (λ a s t m. (refl, m))

  module _ (p : IsPair answer answer' serve c c') where
    request-Alike :
        (q : Request) (s : State (behind answer) (Client (behind answer)))
        (t : State (behind answer') (Client (behind answer')))
        → Match answer answer' serve c c' s t
        → Alike
            (Match answer answer' serve c c')
            (request (modbus_client (behind answer)) q s)
            (request (modbus_client (behind answer')) q t)
    unfolding request
    request-Alike to_open s t m =
        replied-Alike done (open_ (behind answer) s) (open_ (behind answer') t) (
          through_device (open_ (behind answer) s) (open_ (behind answer') t)
            (ok new_result, t.world.device) (open-Models _ serve c s t.world.device (m.0, m.2))
            (open-Models _ serve c' t t.world.device (m.1, refl)))
    request-Alike to_close s t m =
        replied-Alike done (close (behind answer) s) (close (behind answer') t) (
          through_device (close (behind answer) s) (close (behind answer') t)
            (ok new_result, t.world.device) (close-Models _ serve c s t.world.device (m.0, m.2))
            (close-Models _ serve c' t t.world.device (m.1, refl)))
    request-Alike (to_read_int16 address) s t m =
        replied-Alike of_int (read_int16 (behind answer) address s)
          (read_int16 (behind answer') address t)
          (methods-equivalent answer answer' serve c c' p s t address (pos 0) other m).0
    request-Alike (to_read_int32 address) s t m =
        replied-Alike of_int (read_int32 (behind answer) address s)
          (read_int32 (behind answer') address t)
          (methods-equivalent answer answer' serve c c' p s t address (pos 0) other m).1
    request-Alike (to_read_float address) s t m =
        replied-Alike of_bits (read_float (behind answer) address s)
          (read_float (behind answer') address t)
          (methods-equivalent answer answer' serve c c' p s t address (pos 0) other m).2
    request-Alike (to_read_string address n) s t m =
        replied-Alike of_text (read_string (behind answer) address n s)
          (read_string (behind answer') address n t)
          (methods-equivalent answer answer' serve c c' p s t address n other m).3
    request-Alike (to_write address value) s t m =
        replied-Alike done (write (behind answer) address value s)
          (write (behind answer') address value t)
          (methods-equivalent answer answer' serve c c' p s t address (pos 0) value m).4

    -- For two devices that do the same with the PDUs of bytes and reply in the framings of their clients, which
    -- have unit ids that are bytes and the same retry policy, in any two wire modes: from states that match, any calls of
    -- `Open`, `Close`, the reads and `Write` one after the other have the same results on both clients, the values
    -- that were read included, and leave states that match.
    pub sessions-equivalent :
        (qs : List Request) (s : State (behind answer) (Client (behind answer)))
        (t : State (behind answer') (Client (behind answer')))
        → Match answer answer' serve c c' s t
        → Alike
            (Match answer answer' serve c c')
            (requests (modbus_client (behind answer)) qs s)
            (requests (modbus_client (behind answer')) qs t)
    unfolding requests
    sessions-equivalent [] s t m = (refl, m)
    sessions-equivalent (q ∷ qs) s t m =
        continue-Alike (Match answer answer' serve c c')
          (request (modbus_client (behind answer)) q s)
          (request (modbus_client (behind answer')) q t) _ _ (request-Alike q s t m)
          (λ r s' t' m'.
            continue-Alike (Match answer answer' serve c c')
              (requests (modbus_client (behind answer)) qs s')
              (requests (modbus_client (behind answer')) qs t') _ _
              (sessions-equivalent qs s' t' m') (λ rs s'' t'' m''. (refl, m'')))
