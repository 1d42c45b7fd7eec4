-- ===== src/Mitsubishi/Request/Stream.antt =====
-- `readFull` on a stream.
use go_iot_client.Base.{ℕ, ◌≡◌, refl, List, ◌++◌, length}
use go_iot_client.Net.Stream.{Peer, Line, stream}
use go_iot_client.Net.Stream.Laws.{Reads, filled-Reads}
use go_iot_client.Mitsubishi.Request.{full_loop, read_full}

-- `readFull` takes exactly the next bytes off the stream, however they are cut into chunks.
pub read_full-Reads :
    (P : Peer) (n : ℕ) (xs rest : List ℕ) (w : Line P.Device)
    → length xs ≡ n
    → w.inbox ≡ xs ++ rest
    → Reads P xs rest w.device (read_full (stream P) tt n w)
unfolding read_full full_loop
read_full-Reads P =
    filled-Reads P (full_loop (stream P) tt) (λ fuel got w. refl)
      (λ fuel missing got b bs d pace. refl)
