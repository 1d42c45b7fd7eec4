-- ===== src/Tests/Iot.antt =====
-- The clients as implementations of `IoTClient`, on small devices.
use go_iot_client.Base.{arith, ℕ, ◌≡◌, List, [], ◌∷◌}
use go_iot_client.Base.Int.{pos}
use go_iot_client.Value.{int16}
use go_iot_client.Net.{Net}
use go_iot_client.Net.Stream.{Line, stream}
use go_iot_client.Net.Stream.Laws.{stream-IsLawful, line}
use go_iot_client.Mitsubishi.Client.{version_qna3e, new_mitsubishi_client}
use go_iot_client.Mitsubishi.Api.Safety.{Fits}
use go_iot_client.Mitsubishi.Reliable.{mitsubishi_client}
use go_iot_client.Modbus.Client.{
  new_tcp_client, new_rtu_over_tcp_client, new_rtu_client, new_ascii_client,
}
use go_iot_client.Modbus.Client.Invariant.{IsValid}
use go_iot_client.Modbus.Reliable.{modbus_client}
use go_iot_client.Siemens.Client.{new_siemens_client}
use go_iot_client.Siemens.Client.Invariant.{IsConsistent}
use go_iot_client.Siemens.Reliable.{siemens_client}
use go_iot_client.Omron.Client.{new_omron_fins_client}
use go_iot_client.Omron.Reliable.{omron_client}
use go_iot_client.AllenBradley.Client.{new_allen_bradley_client}
use go_iot_client.AllenBradley.Client.Safety.{IsRegistered}
use go_iot_client.AllenBradley.Reliable.{allen_client}
use go_iot_client.Iot.{
  IsReliable, Request, to_open, to_close, to_read_int16, to_read_string, to_write, requests,
}
use go_iot_client.Iot.Clients.{Serves, ModbusServes, clients-IsReliable, new_clients-Serve}
use go_iot_client.Base.Int.{ℤ, negsuc}
use go_iot_client.Siemens.Api as Siemens
use go_iot_client.AllenBradley.Api as Allen
use go_iot_client.Omron.Api as Omron
use go_iot_client.Iot.Values.{Decodes, allen_payload, values-read_back}
use go_iot_client.Tests.Plc.{controller}
use go_iot_client.Tests.Siemens.{Memory, gos7, gos7-IsLawful}

abbrev N : Net
N = stream controller

clients-IsReliable_example :
    IsReliable (modbus_client N) (λ s. IsValid s.client) (λ _. Unit)
    × IsReliable (mitsubishi_client N) (λ s. s.client.version ≡ version_qna3e) Fits
    × IsReliable (omron_client N) (λ _. Unit) (λ _. Unit)
    × IsReliable (allen_client N) (λ s. IsRegistered s.client) (λ _. Unit)
    × IsReliable (siemens_client gos7) (λ s. IsConsistent s.self) (λ _. Unit)
clients-IsReliable_example = clients-IsReliable N (stream-IsLawful controller) gos7 gos7-IsLawful

abbrev host : List ℕ
host = b'h' ∷ []

abbrev memory : Memory
memory = record { busy = 0; memory = 1 ∷ 2 ∷ [] }

abbrev world : Line (Unit {0})
world = line controller tt [] []

-- A read before the client is opened, a write, and a read after it was closed.
abbrev calls : List Request
calls =
    to_read_int16 (b'7' ∷ [])
    ∷ to_open
    ∷ to_write (b'D' ∷ b'7' ∷ []) (int16 (pos 4))
    ∷ to_close
    ∷ to_read_string (b'M' ∷ b'0' ∷ []) (pos 2)
    ∷ []

new_clients-Serve_example :
    (ModbusServes N world calls (new_tcp_client N host)
      × ModbusServes N world calls (new_rtu_over_tcp_client N host)
      × ModbusServes N world calls (new_rtu_client N host)
      × ModbusServes N world calls (new_ascii_client N host))
    × Serves
        (λ s. s.client.version ≡ version_qna3e)
        calls
        (requests (mitsubishi_client N) calls (record {
          client = new_mitsubishi_client N version_qna3e host (pos 5002) (pos 0);
          world = world;
        }))
    × Serves
        (λ _. Unit)
        calls
        (requests
          (omron_client N)
          calls
          (record { client = new_omron_fins_client N host; world = world }))
    × Serves
        (λ s. IsRegistered s.client)
        calls
        (requests
          (allen_client N)
          calls
          (record { client = new_allen_bradley_client N host; world = world }))
    × Serves
        (λ s. IsConsistent s.self)
        calls
        (requests
          (siemens_client gos7)
          calls
          (record { self = new_siemens_client gos7 host; world = memory; buf = [] }))
new_clients-Serve_example =
    new_clients-Serve N (stream-IsLawful controller) gos7 gos7-IsLawful host (pos 5002) (pos 0)
      world memory calls (tt, (tt, (tt, (tt, (tt, tt)))))

-- The smallest int16 and int32, and the bits of 1.0.
abbrev x16 : ℤ
x16 = negsuc 32767

abbrev x32 : ℤ
x32 = negsuc 2147483647

abbrev bits : ℕ
bits = 1065353216

values-read_back_example :
    Decodes Siemens.bytes_of_value Siemens.int16_of Siemens.int32_of Siemens.bits32_of x16 x32 bits
    × Decodes allen_payload Allen.int16_of Allen.int32_of Allen.bits32_of x16 x32 bits
    × Decodes Omron.words_of_value Omron.int16_of Omron.int32_of Omron.bits32_of x16 x32 bits
values-read_back_example = values-read_back x16 x32 bits (omega arith) (omega arith) (omega arith)
