-- ===== src/Net/Stream.antt =====
-- A connection to a device that answers: bytes arrive in order and complete, in chunks of any size.
pub mod Laws
pub mod Steps
use go_iot_client.Base.{
  ℕ, zero, suc, ◌+◌, ◌-◌, ◌≤◌, ◌<◌, ◌≡◌, ◌≢◌, Bool, true, false, Option, none, some, List, [], ◌∷◌,
  ◌++◌, length, take, drop, arith,
}
use Prim.Native.Nat.{min}
use go_iot_client.Base.Outcome.{NetError, fault, Outcome, ok, err, panic}
use go_iot_client.Net.{Net, IsLawful, Received}

-- A device takes what is written to it and sends an answer back.
pub record Peer : Type 1 where
  pub Device : Type 0
  pub answer : List ℕ → Device → List ℕ × Device

-- `inbox` holds what was sent and not read yet; the next read brings at most one byte more than the
-- head of `pace` says.
pub record Line (D : Type 0) : Type 0 where
  pub device : D
  pub inbox : List ℕ
  pub pace : List ℕ

-- The size of the next chunk, and the sizes after it.
abbrev pub chunk : List ℕ → ℕ
chunk [] = 1
chunk (p ∷ ps) = suc p

abbrev pub later : List ℕ → List ℕ
later [] = []
later (p ∷ ps) = ps

module _ (P : Peer) where
  -- With nothing to read a read times out.
  abbrev pub deliver : List ℕ → ℕ → Line P.Device → Received × Line P.Device
  deliver [] n w = (record { bytes = []; error = some (fault 0) }, w)
  deliver (b ∷ bs) n w =
      let k = min n (chunk w.pace) in
      (
        record { bytes = take k (b ∷ bs); error = none },
        record w { inbox = drop k (b ∷ bs); pace = later w.pace },
      )

  abbrev pub sent : List ℕ × P.Device → Line P.Device → Line P.Device
  sent (out, d) w = record w { device = d; inbox = w.inbox ++ out }

  abbrev pub stream : Net
  stream = record {
    World = Line P.Device;
    Conn = Unit {0};
    dial_tcp = λ a t w. (ok tt, record w { inbox = [] });
    open_serial = λ a m w. (ok tt, record w { inbox = [] });
    set_read_timeout = λ c t w. w;
    has_deadline = λ c. true;
    set_deadline = λ c t w. (none, w);
    write = λ c xs w. (none, sent (P.answer xs w.device) w);
    read = λ c n w. deliver w.inbox n w;
    close = λ c w. (none, w);
    sleep = λ t w. w;
  }
