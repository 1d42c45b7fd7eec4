-- ===== src/Omron/Reliable.antt =====
-- The client as an `IoTClient`.
use go_iot_client.Base.{arith}
use go_iot_client.Base.Int.{pos}
use go_iot_client.Value.{other}
use go_iot_client.Core.Report.{weaken-Answers, weaken_reads}
use go_iot_client.Iot.{IotClient, IsReliable}
use go_iot_client.Net.{Net, IsLawful, State}
use go_iot_client.Omron.Client.{Client, open_, close, connected}
use go_iot_client.Omron.Client.Safety.{omron_open-Meets}
use go_iot_client.Omron.Api.{read_int16, read_int32, read_float, read_string, write}
use go_iot_client.Omron.Api.Safety.{omron_methods-Answer}

abbrev pub omron_client : (N : Net) → IotClient (State N (Client N))
omron_client N = record {
  open_ = open_ N;
  close = close N;
  connected = λ s. connected N s.client;
  read_int16 = read_int16 N;
  read_int32 = read_int32 N;
  read_float = read_float N;
  read_string = read_string N;
  write = write N;
}

-- On every connection that meets the documentation, the client keeps what a caller relies on.
pub omron_client-IsReliable :
    (N : Net) → IsLawful N → IsReliable (omron_client N) (λ s. Unit {0}) (λ _. Unit {0})
unfolding connected close
omron_client-IsReliable N L = record {
  opens = λ s h. ground (arith, omron_open-Meets N L s);
  closes = λ s h. ground arith;
  reads = λ s h address n.
      let r = omron_methods-Answer N L s address n other in
      weaken_reads (λ s' g. tt) (read_int16 N address s) (read_int32 N address s)
        (read_float N address s) (read_string N address n s) r.0 r.1 r.2 r.3;
  writes = λ s h address value w.
      weaken-Answers (λ s' g. tt) (write N address value s)
        (omron_methods-Answer N L s address (pos 1) value).4;
}
