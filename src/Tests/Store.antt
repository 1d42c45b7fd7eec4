-- ===== src/Tests/Store.antt =====
-- The Siemens client on a controller of 65536 bytes in one area.
use go_iot_client.Base.{ℕ, ◌≡◌, refl, none, List, [], ◌∷◌, arith}
use go_iot_client.Base.Int.{pos, negsuc}
use go_iot_client.Base.Outcome.{ok}
use go_iot_client.Text.{
  strip_prefix, trim_space, trim_right, trim_left, to_upper, atoi, parse_uint, parse_digits, is_nul,
}
use go_iot_client.Value.{int16, int32, float32, string}
use go_iot_client.Mock.{cells, store}
use go_iot_client.Mock.Memory.{cells-store}
use go_iot_client.Siemens.Gos7.{Gos7}
use go_iot_client.Siemens.Address.{Area, area_m, Addr, parse_upper, parse_siemens_address}
use go_iot_client.Siemens.Client.{State, new_siemens_client}
use go_iot_client.Siemens.Client.Invariant.{IsConsistent, new_siemens_client-IsConsistent}
use go_iot_client.Siemens.Api.{read_int16, read_int32, read_float, read_string}
use go_iot_client.Siemens.Api.Store.{IsStore}
use go_iot_client.Siemens.Api.ReadBack.{ReadsBack, siemens_methods_read_back}

abbrev controller : Gos7
controller = record {
  World = ℕ → ℕ;
  Handler = Unit {0};
  connect = λ endpoint rack slot timeout w. (ok tt, w);
  close = λ h w. (none, w);
  read = λ h area db start size buf w. ((none, cells w start size), w);
  write = λ h area db start size payload w. (none, store w start payload);
  sleep = λ t w. w;
}

abbrev memory : (ℕ → ℕ) → Area → ℕ → ℕ → ℕ → List ℕ
memory w area db start size = cells w start size

controller-IsStore : IsStore controller (λ w. Unit {0}) memory
controller-IsStore = record {
  connects = λ endpoint rack slot timeout w h. tt;
  closes = λ h w k. tt;
  reads = λ h area db start size buf w k fits small l. refl;
  writes = λ h area db start payload w k fits small bs.
      (refl, tt, cells-store w start payload fits (omega arith));
}

abbrev m100 : List ℕ
m100 = b'M' ∷ b'1' ∷ b'0' ∷ b'0' ∷ []

abbrev byte_100 : Addr
byte_100 = record { area = area_m; db = 0; start = 100 }

m100-parsed : parse_siemens_address m100 ≡ ok byte_100
unfolding parse_siemens_address parse_upper strip_prefix trim_space trim_right trim_left to_upper
    atoi parse_uint parse_digits
m100-parsed = refl

abbrev start : State controller
start = record { self = new_siemens_client controller (b'p' ∷ []); world = λ addr. 0; buf = [] }

start-IsConsistent : IsConsistent start.self
start-IsConsistent = new_siemens_client-IsConsistent controller (b'p' ∷ [])

abbrev text : List ℕ
text = b'a' ∷ 0 ∷ b'b' ∷ 0 ∷ []

siemens_methods_read_back_example :
    ReadsBack controller
      (λ w. Unit {0})
      memory
      controller-IsStore
      start
      start-IsConsistent
      tt
      m100
      byte_100
      m100-parsed
      (omega arith)
      (int16 (negsuc 4))
      (read_int16 controller m100)
      (negsuc 4)
    × ReadsBack controller
        (λ w. Unit {0})
        memory
        controller-IsStore
        start
        start-IsConsistent
        tt
        m100
        byte_100
        m100-parsed
        (omega arith)
        (int32 (negsuc 70000))
        (read_int32 controller m100)
        (negsuc 70000)
    × ReadsBack controller
        (λ w. Unit {0})
        memory
        controller-IsStore
        start
        start-IsConsistent
        tt
        m100
        byte_100
        m100-parsed
        (omega arith)
        (float32 1078530011)
        (read_float controller m100)
        1078530011
    × ReadsBack controller
        (λ w. Unit {0})
        memory
        controller-IsStore
        start
        start-IsConsistent
        tt
        m100
        byte_100
        m100-parsed
        (omega arith)
        (string text)
        (read_string controller m100 (pos 4))
        (trim_right is_nul text)
siemens_methods_read_back_example =
    siemens_methods_read_back controller (λ w. Unit {0}) memory controller-IsStore start
      start-IsConsistent tt m100 byte_100 m100-parsed (omega arith) (negsuc 4) (negsuc 70000)
      1078530011 text (omega arith) (omega arith) (omega arith)
      (omega arith, (omega arith, (omega arith, (omega arith, tt)))) (omega arith) (omega arith)
