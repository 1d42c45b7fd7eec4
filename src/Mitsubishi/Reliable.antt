-- ===== src/Mitsubishi/Reliable.antt =====
-- The client as an `IoTClient`.
use go_iot_client.Base.{◌≡◌, refl, ap, ◌∙◌, arith}
use go_iot_client.Base.Int.{pos}
use go_iot_client.Value.{other}
use go_iot_client.Core.Report.{weaken-Answers, weaken_reads}
use go_iot_client.Iot.{IotClient, IsReliable}
use go_iot_client.Net.{Net, IsLawful, State}
use go_iot_client.Mitsubishi.Client.{
  Client, version_qna3e, open_, close, connected, reconnect_locked,
}
use go_iot_client.Mitsubishi.Request.Safety.{SameSettings, reconnect_locked-Meets}
use go_iot_client.Mitsubishi.Api.{read_int16, read_int32, read_float, read_string, write}
use go_iot_client.Mitsubishi.Api.Safety.{Fits, mitsubishi_methods-Answer}

abbrev pub mitsubishi_client : (N : Net) → IotClient (State N (Client N))
mitsubishi_client N = record {
  open_ = open_ N;
  close = close N;
  connected = λ s. connected N s.client;
  read_int16 = read_int16 N;
  read_int32 = read_int32 N;
  read_float = read_float N;
  read_string = read_string N;
  write = write N;
}

same_version :
    (N : Net) (s s' : State N (Client N))
    → SameSettings s.client s'.client
    → s.client.version ≡ version_qna3e
    → s'.client.version ≡ version_qna3e
same_version N s s' g h = ap (λ (c : Client N). c.version) g ∙ h

-- On every connection that meets the documentation, the client keeps what a caller relies on where a
-- string to write has at most 131070 bytes; it is a client of the version Qna_3E.
pub mitsubishi_client-IsReliable :
    (N : Net)
    → IsLawful N
    → IsReliable (mitsubishi_client N) (λ s. s.client.version ≡ version_qna3e) (Fits)
unfolding connected close open_ reconnect_locked
mitsubishi_client-IsReliable N L = record {
  opens = λ s h. ground (arith, reconnect_locked-Meets N L s.client s refl);
  closes = λ s h. ground arith;
  reads = λ s h address n.
      let r = mitsubishi_methods-Answer N L s address n other tt in
      weaken_reads (λ s' g. same_version N s s' g h) (read_int16 N address s)
        (read_int32 N address s) (read_float N address s) (read_string N address n s) r.0 r.1 r.2
        r.3;
  writes = λ s h address value w.
      weaken-Answers (λ s' g. same_version N s s' g h) (write N address value s)
        (mitsubishi_methods-Answer N L s address (pos 1) value w).4;
}
