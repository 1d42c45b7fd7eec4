-- ===== src/Net/Full.antt =====
-- `io.ReadFull`, over the reads of a connection.
pub mod Laws
use go_iot_client.Base.{
  ℕ, zero, suc, ◌+◌, ◌-◌, Option, none, some, List, [], ◌++◌, length, leb, if◌then◌else◌,
}
use go_iot_client.Base.Outcome.{
  NetError, eof, Error, net, unexpected_eof, Outcome, ok, err, panic, M,
}
use go_iot_client.Net.{Net, Received}

-- The error of a read that ended short, after `got` bytes: `io.EOF` in the middle is unexpected.
short_error : ℕ → NetError → Error
short_error zero e = net e
short_error (suc got) eof = unexpected_eof
short_error (suc got) e = net e

module _ (N : Net) (c : N.Conn) where
  -- The loop, with `missing` bytes still to come behind those in `got`. Where the fuel runs
  -- out the loop has not ended, and the call does not return.
  unfoldable pub full_loop : ℕ → ℕ → List ℕ → M N.World (List ℕ)
  unfolding short_error
  full_loop fuel zero got w = (ok got, w)
  full_loop zero (suc missing) got w = (panic, w)
  full_loop (suc fuel) (suc missing) got w =
      let (r, w') = N.read c (suc missing) w in
      let all : List ℕ = got ++ r.bytes in
      let more = full_loop fuel (suc missing - length r.bytes) all w' in
      elim r.error [
        | none ↦ more
        | some e ↦
            if leb (suc missing) (length r.bytes)
            then (ok all, w')
            else (err (short_error (length all) e), w')
      ]

  -- `io.ReadFull(conn, make([]byte, n))`
  unfoldable pub read_full : ℕ → M N.World (List ℕ)
  unfolding full_loop
  read_full n = full_loop n n []
