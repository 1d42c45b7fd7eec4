-- ===== src/AllenBradley/Reliable.antt =====
-- The client as an `IoTClient`.
use go_iot_client.Base.{arith}
use go_iot_client.Base.Int.{pos}
use go_iot_client.Value.{other}
use go_iot_client.Core.Report.{weaken-Answers, weaken_reads}
use go_iot_client.Iot.{IotClient, IsReliable}
use go_iot_client.Net.{Net, IsLawful, State}
use go_iot_client.AllenBradley.Client.{Client, open_, close, connected}
use go_iot_client.AllenBradley.Client.Safety.{IsRegistered, allen_open-Meets, close-IsRegistered}
use go_iot_client.AllenBradley.Api.{read_int16, read_int32, read_float, read_string, write}
use go_iot_client.AllenBradley.Api.Safety.{allen_methods-Answer}

abbrev pub allen_client : (N : Net) → IotClient (State N (Client N))
allen_client N = record {
  open_ = open_ N;
  close = close N;
  connected = λ s. connected N s.client;
  read_int16 = read_int16 N;
  read_int32 = read_int32 N;
  read_float = read_float N;
  read_string = read_string N;
  write = write N;
}

-- On every connection that meets the documentation, the client keeps what a caller relies on; while it is
-- connected it has a session.
pub allen_client-IsReliable :
    (N : Net)
    → IsLawful N
    → IsReliable (allen_client N) (λ s. IsRegistered s.client) (λ _. Unit {0})
unfolding connected
allen_client-IsReliable N L = record {
  opens = λ s h. ground (arith, allen_open-Meets N L s);
  closes = λ s h. ground (arith, close-IsRegistered N s);
  reads = λ s h address n.
      let r = allen_methods-Answer N L s h address n other in
      weaken_reads (λ s' g. g.1) (read_int16 N address s) (read_int32 N address s)
        (read_float N address s) (read_string N address n s) r.0 r.1 r.2 r.3;
  writes = λ s h address value w.
      weaken-Answers (λ s' g. g.1) (write N address value s)
        (allen_methods-Answer N L s h address (pos 1) value).4;
}
