-- ===== src/Siemens/Gos7.antt =====
-- What the code uses of github.com/robinson/gos7: a handler, and the reads and writes through it.
use go_iot_client.Base.{ℕ, ◌≡◌, ◌≢◌, Option, List, length}
use go_iot_client.Base.Int.{ℤ}
use go_iot_client.Base.Outcome.{NetError, Outcome, panic}
use go_iot_client.Siemens.Address.{Area}

-- A read fills a buffer that the caller hands over; it may have written to it also where it fails. A
-- buffer has a fixed length, so `read` gives back one of the same length.
pub record Gos7 : Type 1 where
  pub World : Type 0
  pub Handler : Type 0
  -- `NewTCPClientHandler` with its timeouts, and `Connect`
  pub connect : List ℕ → ℤ → ℤ → ℤ → World → Outcome Handler × World
  pub close : Handler → World → Option NetError × World
  -- `AGReadDB`, `AGReadMB`, `AGReadEB` and `AGReadAB` with the area's number, the start, the size and
  -- the buffer
  pub read : Handler → Area → ℕ → ℕ → ℕ → List ℕ → World → (Option NetError × List ℕ) × World
  -- `AGWriteDB`, `AGWriteMB`, `AGWriteEB` and `AGWriteAB`
  pub write : Handler → Area → ℕ → ℕ → ℕ → List ℕ → World → Option NetError × World
  pub sleep : ℤ → World → World

pub record IsLawful (G : Gos7) : Type 0 where
  pub connect-returns :
      (endpoint : List ℕ) (rack slot timeout : ℤ) (w : G.World)
      → (G.connect endpoint rack slot timeout w).0 ≢ panic
  pub read-length :
      (h : G.Handler) (area : Area) (db start size : ℕ) (buf : List ℕ) (w : G.World)
      → length (G.read h area db start size buf w).0.1 ≡ length buf
