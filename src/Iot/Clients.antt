-- ===== src/Iot/Clients.antt =====
-- The five clients as implementations of `IoTClient`.
use go_iot_client.Base.{ℕ, ◌≡◌, refl, List, [], ◌∷◌, length, All}
use go_iot_client.Base.Int.{ℤ}
use go_iot_client.Base.Outcome.{Outcome, Meets}
use go_iot_client.Mitsubishi.Client.{version_qna3e, new_mitsubishi_client}
use go_iot_client.Mitsubishi.Api.Safety.{Fits}
use go_iot_client.Mitsubishi.Reliable.{mitsubishi_client, mitsubishi_client-IsReliable}
use go_iot_client.Modbus.Client.{
  Client, new_tcp_client, new_rtu_over_tcp_client, new_rtu_client, new_ascii_client,
}
use go_iot_client.Modbus.Client.Invariant.{IsValid, constructors-IsValid}
use go_iot_client.Modbus.Reliable.{modbus_client, modbus_client-IsReliable}
use go_iot_client.Siemens.Client.{new_siemens_client}
use go_iot_client.Siemens.Client.Invariant.{IsConsistent, new_siemens_client-IsConsistent}
use go_iot_client.Siemens.Gos7 as Gos
use go_iot_client.Siemens.Gos7.{Gos7}
use go_iot_client.Siemens.Reliable.{siemens_client, siemens_client-IsReliable}
use go_iot_client.Omron.Client.{new_omron_fins_client}
use go_iot_client.Omron.Reliable.{omron_client, omron_client-IsReliable}
use go_iot_client.AllenBradley.Client.{new_allen_bradley_client}
use go_iot_client.AllenBradley.Client.Safety.{IsRegistered}
use go_iot_client.AllenBradley.Reliable.{allen_client, allen_client-IsReliable}
use go_iot_client.Net.{Net, IsLawful}
use go_iot_client.Iot.{
  IsReliable, Request, Reply, to_open, to_close, to_read_int16, to_read_int32, to_read_float,
  to_read_string, to_write, requests, Allowed,
}
use go_iot_client.Iot.Reliable.{requests-Returns}

-- On every connection that meets the documentation, and for Siemens with a gos7 whose dialing returns and
-- whose reads keep the length of the buffer: the Modbus, Mitsubishi, Omron, Allen-Bradley and Siemens clients keep what
-- a caller of `IoTClient` relies on. The invariants are that the Modbus client is valid, that the
-- Mitsubishi client is one for Qna_3E and a string to write has at most 131070 bytes, that the
-- Allen-Bradley client has a session while it is connected, and that the Siemens client's handler, client
-- and flag agree.
pub clients-IsReliable :
    (N : Net) (L : IsLawful N) (G : Gos7) (K : Gos.IsLawful G)
    → IsReliable (modbus_client N) (λ s. IsValid s.client) (λ _. Unit)
      × IsReliable (mitsubishi_client N) (λ s. s.client.version ≡ version_qna3e) Fits
      × IsReliable (omron_client N) (λ _. Unit) (λ _. Unit)
      × IsReliable (allen_client N) (λ s. IsRegistered s.client) (λ _. Unit)
      × IsReliable (siemens_client G) (λ s. IsConsistent s.self) (λ _. Unit)
clients-IsReliable N L G K = (
  modbus_client-IsReliable N L,
  mitsubishi_client-IsReliable N L,
  omron_client-IsReliable N L,
  allen_client-IsReliable N L,
  siemens_client-IsReliable G K,
)

anything-Allowed : (q : Request) → Allowed (λ _. Unit {0}) q
anything-Allowed to_open = tt
anything-Allowed to_close = tt
anything-Allowed (to_read_int16 address) = tt
anything-Allowed (to_read_int32 address) = tt
anything-Allowed (to_read_float address) = tt
anything-Allowed (to_read_string address n) = tt
anything-Allowed (to_write address value) = tt

All-Allowed : (qs : List Request) → All (Allowed (λ _. Unit {0})) qs
All-Allowed [] = tt
All-Allowed (q ∷ qs) = (anything-Allowed q, All-Allowed qs)

-- Calls that return, one reply for each, and leave the invariant.
abbrev pub Serves : {S : Type 0} → (S → Type 0) → List Request → Outcome (List Reply) × S → Type 0
Serves Inv qs r = Meets (λ rs s'. (length rs ≡ length qs) × Inv s') (λ _ _. ⊥) r

-- The same for a Modbus client, which stays valid.
abbrev pub ModbusServes : (N : Net) → N.World → List Request → Client N → Type 0
ModbusServes N w qs c =
    Serves (λ s. IsValid s.client) qs
      (requests (modbus_client N) qs (record { client = c; world = w }))

modbus-Serves :
    (N : Net) (L : IsLawful N) (w : N.World) (qs : List Request) (c : Client N)
    → IsValid c
    → ModbusServes N w qs c
modbus-Serves N L w qs c v =
    requests-Returns (modbus_client N) _ _ (modbus_client-IsReliable N L) qs
      (record { client = c; world = w }) (All-Allowed qs) v

qna3e_version :
    (N : Net) (ip : List ℕ) (port timeout : ℤ)
    → (new_mitsubishi_client N version_qna3e ip port timeout).version ≡ version_qna3e
unfolding new_mitsubishi_client
qna3e_version N ip port timeout = refl

new_IsRegistered :
    (N : Net) (endpoint : List ℕ) → IsRegistered (new_allen_bradley_client N endpoint)
unfolding new_allen_bradley_client
new_IsRegistered N endpoint h = absurd (h refl)

-- On every connection that meets the documentation, and for Siemens with a gos7 whose dialing returns and
-- whose reads keep the length of the buffer: on what each of the four constructors of a Modbus client makes, on
-- what the constructors of the Omron, Allen-Bradley and Siemens clients make, and on what the constructor of the
-- Mitsubishi client makes for the version Qna_3E, calls of the methods in any order and with any arguments,
-- except that a string to write has at most 131070 bytes, return one result each, with no panic; after them the
-- Modbus client is valid, the Allen-Bradley client has a session if it is connected, and the Siemens client's
-- handler, client and flag agree.
pub new_clients-Serve :
    (N : Net) (L : IsLawful N) (G : Gos7) (K : Gos.IsLawful G) (endpoint : List ℕ)
    (port timeout : ℤ) (w : N.World) (g : G.World) (qs : List Request)
    → All (Allowed Fits) qs
    → (ModbusServes N w qs (new_tcp_client N endpoint)
        × ModbusServes N w qs (new_rtu_over_tcp_client N endpoint)
        × ModbusServes N w qs (new_rtu_client N endpoint)
        × ModbusServes N w qs (new_ascii_client N endpoint))
      × Serves
          (λ s. s.client.version ≡ version_qna3e)
          qs
          (requests (mitsubishi_client N) qs (record {
            client = new_mitsubishi_client N version_qna3e endpoint port timeout;
            world = w;
          }))
      × Serves
          (λ _. Unit)
          qs
          (requests
            (omron_client N)
            qs
            (record { client = new_omron_fins_client N endpoint; world = w }))
      × Serves
          (λ s. IsRegistered s.client)
          qs
          (requests
            (allen_client N)
            qs
            (record { client = new_allen_bradley_client N endpoint; world = w }))
      × Serves
          (λ s. IsConsistent s.self)
          qs
          (requests
            (siemens_client G)
            qs
            (record { self = new_siemens_client G endpoint; world = g; buf = [] }))
new_clients-Serve N L G K endpoint port timeout w g qs fit = (
  (
    modbus-Serves N L w qs (new_tcp_client N endpoint) (constructors-IsValid N endpoint).0,
    modbus-Serves N L w qs (new_rtu_over_tcp_client N endpoint) (constructors-IsValid N endpoint).1,
    modbus-Serves N L w qs (new_rtu_client N endpoint) (constructors-IsValid N endpoint).2,
    modbus-Serves N L w qs (new_ascii_client N endpoint) (constructors-IsValid N endpoint).3,
  ),
  requests-Returns (mitsubishi_client N) _ _ (mitsubishi_client-IsReliable N L) qs _ fit
      (qna3e_version N endpoint port timeout),
  requests-Returns (omron_client N) _ _ (omron_client-IsReliable N L) qs _ (All-Allowed qs) tt,
  requests-Returns (allen_client N) _ _ (allen_client-IsReliable N L) qs _ (All-Allowed qs)
      (new_IsRegistered N endpoint),
  requests-Returns (siemens_client G) _ _ (siemens_client-IsReliable G K) qs _ (All-Allowed qs)
      (new_siemens_client-IsConsistent G endpoint),
)
