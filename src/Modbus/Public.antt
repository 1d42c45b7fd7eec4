-- ===== src/Modbus/Public.antt =====
-- The four public clients: each passes every call on to its inner client.
use go_iot_client.Base.{ℕ, ◌≡◌, refl, sym, List}
use mathlib.Core.Path.{subst}
use go_iot_client.Base.Int.{ℤ}
use go_iot_client.Base.Outcome.{Outcome, ok, err, panic, M, Meets}
use go_iot_client.Core.{RetryPolicy}
use go_iot_client.Iot.{IotClient, IsReliable}
use go_iot_client.Net.{Net, IsLawful, SerialMode, State}
use go_iot_client.Modbus.Client as Set
use go_iot_client.Base.Words.{IsByte}
use go_iot_client.Modbus.Client.{
  Client, Call, zero_mode, open_, close, connected, new_tcp_client, new_rtu_over_tcp_client,
  new_rtu_client, new_ascii_client,
}
use go_iot_client.Modbus.Client.Invariant.{IsValid, constructors-IsValid, setters-IsValid}
use go_iot_client.Modbus.Api.{read_int16, read_int32, read_float, read_string, write}
use go_iot_client.Modbus.Reliable.{modbus_client-IsReliable}

pub record TcpClient (N : Net) : Type 0 where
  pub inner : Client N

pub record RtuOverTcpClient (N : Net) : Type 0 where
  pub inner : Client N

pub record RtuClient (N : Net) : Type 0 where
  pub inner : Client N

pub record AsciiClient (N : Net) : Type 0 where
  pub inner : Client N

-- The setters that the four have.
pub record Setters (C : Type 0) : Type 0 where
  pub set_unit_id : ℕ → C → C
  pub set_timeout : ℤ → C → C
  pub set_retry_policy : RetryPolicy → C → C

-- `c.inner.Method(…)`, for a struct that has an inner client.
module _ (N : Net) {C : Type 0} (inner : C → Client N) (wrap : Client N → C) where
  abbrev inside : State N C → State N (Client N)
  inside s = record { client = inner s.client; world = s.world }

  abbrev outside : {A : Type 0} → Outcome A × State N (Client N) → Outcome A × State N C
  outside (r, s) = (r, record { client = wrap s.client; world = s.world })

  abbrev forward : {A : Type 0} → Call N A → M (State N C) A
  forward call s = outside (call (inside s))

  abbrev forwarded : IotClient (State N C)
  forwarded = record {
    open_ = forward (open_ N);
    close = forward (close N);
    connected = λ s. connected N (inner s.client);
    read_int16 = λ address. forward (read_int16 N address);
    read_int32 = λ address. forward (read_int32 N address);
    read_float = λ address. forward (read_float N address);
    read_string = λ address n. forward (read_string N address n);
    write = λ address value. forward (write N address value);
  }

  abbrev changed : (Client N → Client N) → C → C
  changed set c = wrap (set (inner c))

  abbrev forwarded_setters : Setters C
  forwarded_setters = record {
    set_unit_id = λ unit_id. changed (Set.set_unit_id N unit_id);
    set_timeout = λ timeout. changed (Set.set_timeout N timeout);
    set_retry_policy = λ policy. changed (Set.set_retry_policy N policy);
  }

  module _ (kept : (c : Client N) → inner (wrap c) ≡ c) where
    outside-Meets :
        {A : Type 0} (P : A → State N (Client N) → Type 0) (r : Outcome A × State N (Client N))
        → Meets P (λ _ _. ⊥) r
        → Meets (λ a s. P a (inside s)) (λ _ _. ⊥) (outside r)
    outside-Meets P (ok a, s) h =
        subst (λ c. P a (record { client = c; world = s.world })) (sym (kept s.client)) h
    outside-Meets P (err e, s) h = h
    outside-Meets P (panic, s) h = h

    pub setters_keep-IsValid :
        (c : C) (unit_id : ℕ) (timeout : ℤ) (policy : RetryPolicy)
        → IsValid (inner c)
        → IsByte unit_id
        → IsValid (inner (forwarded_setters.set_unit_id unit_id c))
          × IsValid (inner (forwarded_setters.set_timeout timeout c))
          × IsValid (inner (forwarded_setters.set_retry_policy policy c))
    setters_keep-IsValid c unit_id timeout policy v h =
        let set = setters-IsValid N (inner c) v unit_id timeout policy zero_mode h in
        (
          subst IsValid (sym (kept _)) set.0,
          subst IsValid (sym (kept _)) set.1,
          subst IsValid (sym (kept _)) set.2,
        )

    -- What a caller relies on of the inner client holds of the outer one.
    forwarded-IsReliable :
        IsLawful N → IsReliable forwarded (λ s. IsValid (inner s.client)) (λ _. Unit {0})
    forwarded-IsReliable L =
        let r = modbus_client-IsReliable N L in
        record {
          opens = λ s h. outside-Meets _ (open_ N (inside s)) (r.opens (inside s) h);
          closes = λ s h. outside-Meets _ (close N (inside s)) (r.closes (inside s) h);
          reads = λ s h address n.
              let reads = r.reads (inside s) h address n in
              (
                outside-Meets _ (read_int16 N address (inside s)) reads.0,
                outside-Meets _ (read_int32 N address (inside s)) reads.1,
                outside-Meets _ (read_float N address (inside s)) reads.2,
                outside-Meets _ (read_string N address n (inside s)) reads.3,
              );
          writes = λ s h address value w.
              outside-Meets _ (write N address value (inside s))
                (r.writes (inside s) h address value w);
        }

module _ (N : Net) where
  abbrev pub tcp_client : IotClient (State N (TcpClient N))
  tcp_client = forwarded N (λ c. c.inner) (λ c. record { inner = c })

  abbrev pub rtu_over_tcp_client : IotClient (State N (RtuOverTcpClient N))
  rtu_over_tcp_client = forwarded N (λ c. c.inner) (λ c. record { inner = c })

  abbrev pub rtu_client : IotClient (State N (RtuClient N))
  rtu_client = forwarded N (λ c. c.inner) (λ c. record { inner = c })

  abbrev pub ascii_client : IotClient (State N (AsciiClient N))
  ascii_client = forwarded N (λ c. c.inner) (λ c. record { inner = c })

  abbrev pub tcp_setters : Setters (TcpClient N)
  tcp_setters = forwarded_setters N (λ c. c.inner) (λ c. record { inner = c })

  abbrev pub rtu_over_tcp_setters : Setters (RtuOverTcpClient N)
  rtu_over_tcp_setters = forwarded_setters N (λ c. c.inner) (λ c. record { inner = c })

  abbrev pub rtu_setters : Setters (RtuClient N)
  rtu_setters = forwarded_setters N (λ c. c.inner) (λ c. record { inner = c })

  abbrev pub ascii_setters : Setters (AsciiClient N)
  ascii_setters = forwarded_setters N (λ c. c.inner) (λ c. record { inner = c })

  abbrev pub rtu_set_serial_mode : SerialMode → RtuClient N → RtuClient N
  rtu_set_serial_mode mode c = record { inner = Set.set_serial_mode N mode c.inner }

  abbrev pub ascii_set_serial_mode : SerialMode → AsciiClient N → AsciiClient N
  ascii_set_serial_mode mode c = record { inner = Set.set_serial_mode N mode c.inner }

-- On every connection that meets the documentation each of the four public clients keeps what a caller of
-- `IoTClient` relies on, with the invariant that its inner client is valid, which it is after its constructor.
pub public_clients-IsReliable :
    (N : Net) (endpoint : List ℕ)
    → IsLawful N
    → (IsReliable (tcp_client N) (λ s. IsValid s.client.inner) (λ _. Unit)
        × IsReliable (rtu_over_tcp_client N) (λ s. IsValid s.client.inner) (λ _. Unit)
        × IsReliable (rtu_client N) (λ s. IsValid s.client.inner) (λ _. Unit)
        × IsReliable (ascii_client N) (λ s. IsValid s.client.inner) (λ _. Unit))
      × (IsValid (new_tcp_client N endpoint)
          × IsValid (new_rtu_over_tcp_client N endpoint)
          × IsValid (new_rtu_client N endpoint)
          × IsValid (new_ascii_client N endpoint))
public_clients-IsReliable N endpoint L = (
  (
    forwarded-IsReliable N (λ c. c.inner) (λ c. record { inner = c }) (λ c. refl) L,
    forwarded-IsReliable N (λ c. c.inner) (λ c. record { inner = c }) (λ c. refl) L,
    forwarded-IsReliable N (λ c. c.inner) (λ c. record { inner = c }) (λ c. refl) L,
    forwarded-IsReliable N (λ c. c.inner) (λ c. record { inner = c }) (λ c. refl) L,
  ),
  constructors-IsValid N endpoint,
)
