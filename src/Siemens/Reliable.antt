-- ===== src/Siemens/Reliable.antt =====
-- The client as an `IoTClient`.
use go_iot_client.Base.{arith}
use go_iot_client.Base.Int.{pos}
use go_iot_client.Value.{other}
use go_iot_client.Core.Report.{weaken-Answers, weaken_reads}
use go_iot_client.Iot.{IotClient, IsReliable}
use go_iot_client.Siemens.Gos7.{Gos7, IsLawful}
use go_iot_client.Siemens.Client.{State, open_, close, connected}
use go_iot_client.Siemens.Client.Invariant.{IsConsistent, siemens_open-Meets, siemens_close-Meets}
use go_iot_client.Siemens.Api.{read_int16, read_int32, read_float, read_string, write}
use go_iot_client.Siemens.Api.Safety.{siemens_methods-Answer}

abbrev pub siemens_client : (G : Gos7) → IotClient (State G)
siemens_client G = record {
  open_ = open_ G;
  close = close G;
  connected = λ s. connected G s.self;
  read_int16 = read_int16 G;
  read_int32 = read_int32 G;
  read_float = read_float G;
  read_string = read_string G;
  write = write G;
}

-- Where gos7's dialing returns and its reads keep the length of the buffer, the client keeps what a caller relies on; its
-- handler, its client and its flag agree.
pub siemens_client-IsReliable :
    (G : Gos7)
    → IsLawful G
    → IsReliable (siemens_client G) (λ s. IsConsistent s.self) (λ _. Unit {0})
unfolding connected
siemens_client-IsReliable G L = record {
  opens = λ s h. ground (arith, siemens_open-Meets G L s h);
  closes = λ s h. ground (arith, siemens_close-Meets G s);
  reads = λ s h address n.
      let r = siemens_methods-Answer G L s h address n other in
      weaken_reads (λ s' g. g.1) (read_int16 G address s) (read_int32 G address s)
        (read_float G address s) (read_string G address n s) r.0 r.1 r.2 r.3;
  writes = λ s h address value w.
      weaken-Answers (λ s' g. g.1) (write G address value s)
        (siemens_methods-Answer G L s h address (pos 1) value).4;
}
