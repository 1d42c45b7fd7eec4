-- ===== src/Modbus/Reliable.antt =====
-- The client as an `IoTClient`.
use go_iot_client.Base.{arith}
use go_iot_client.Base.Int.{pos}
use go_iot_client.Value.{other}
use go_iot_client.Core.Report.{weaken-Answers, weaken_reads}
use go_iot_client.Iot.{IotClient, IsReliable}
use go_iot_client.Net.{Net, IsLawful, State}
use go_iot_client.Modbus.Client.{Client, open_, close, connected}
use go_iot_client.Modbus.Client.Invariant.{IsValid, open-Meets, close-Meets}
use go_iot_client.Modbus.Api.{read_int16, read_int32, read_float, read_string, write}
use go_iot_client.Modbus.Api.Safety.{methods-Answer}

abbrev pub modbus_client : (N : Net) → IotClient (State N (Client N))
modbus_client N = record {
  open_ = open_ N;
  close = close N;
  connected = λ s. connected N s.client;
  read_int16 = read_int16 N;
  read_int32 = read_int32 N;
  read_float = read_float N;
  read_string = read_string N;
  write = write N;
}

-- On every connection that meets the documentation, the client keeps what a caller relies on; it stays
-- valid.
pub modbus_client-IsReliable :
    (N : Net) → IsLawful N → IsReliable (modbus_client N) (λ s. IsValid s.client) (λ _. Unit {0})
unfolding connected
modbus_client-IsReliable N L = record {
  opens = λ s h. ground (arith, open-Meets N L s h);
  closes = λ s h. ground (arith, close-Meets N s h);
  reads = λ s h address n.
      let r = methods-Answer N L s h address n other in
      weaken_reads (λ s' g. g.valid) (read_int16 N address s) (read_int32 N address s)
        (read_float N address s) (read_string N address n s) r.0 r.1 r.2 r.3;
  writes = λ s h address value w.
      weaken-Answers (λ s' g. g.valid) (write N address value s)
        (methods-Answer N L s h address (pos 1) value).4;
}
