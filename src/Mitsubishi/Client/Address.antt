-- ===== src/Mitsubishi/Client/Address.antt =====
-- Addresses: of the PLC (`net.JoinHostPort`, `strconv.Itoa`) and of its D registers (`parseDAddress`).
pub mod Laws
use go_iot_client.Base.{
  ℕ, zero, suc, ◌+◌, ◌/◌, ◌%◌, Bool, false, ◌||◌, Option, none, some, List, [], ◌∷◌, ◌++◌, map, ltb,
  ◌==◌, if◌then◌else◌,
}
use go_iot_client.Base.Int.{ℤ, pos, negsuc}
use go_iot_client.Base.Outcome.{Outcome, ok, err, address_not_d, invalid_d_address}
use go_iot_client.Text.{trim_space, to_upper, parse_uint, itoa, decimal}

unfoldable pub has_colon : List ℕ → Bool
has_colon [] = false
has_colon (c ∷ s) = c == b':' || has_colon s

-- A host with a colon is taken for an IPv6 address.
unfoldable pub join_host_port : List ℕ → List ℕ → List ℕ
join_host_port host port =
    if has_colon host then b'[' ∷ (host ++ (b']' ∷ b':' ∷ port)) else host ++ (b':' ∷ port)

abbrev pub parsed : Option ℕ → Outcome ℕ
parsed none = err invalid_d_address
parsed (some n) = ok n

-- The address after `ToUpper` and `TrimSpace`.
unfoldable pub parse_upper : List ℕ → Outcome ℕ
parse_upper [] = err address_not_d
parse_upper (c ∷ []) = err address_not_d
parse_upper (c ∷ d ∷ s) = if c == b'D' then parsed (parse_uint 65535 (d ∷ s)) else err address_not_d

unfoldable pub parse_d_address : List ℕ → Outcome ℕ
parse_d_address address = parse_upper (trim_space (map to_upper address))
