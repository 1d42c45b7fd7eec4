-- ===== src/AllenBradley/Frame.antt =====
-- `buildReadCommand`, `buildWriteCommand` and `validateAllenTag`.
pub mod Lengths
use go_iot_client.Base.{
  ℕ, ◌+◌, ◌-◌, ◌*◌, ◌/◌, ◌%◌, List, [], ◌∷◌, ◌++◌, length, replicate, ltb, ◌==◌, if◌then◌else◌,
}
use go_iot_client.Base.Outcome.{Outcome, ok, err, empty_tag, tag_too_long}
use go_iot_client.Base.Words.{little, put_uint16, put_uint32}
use go_iot_client.Text.{trim_space}

-- `addrAligned`, and the padding of a string: an odd number of bytes gains a zero byte.
unfoldable pub aligned : List ℕ → List ℕ
aligned xs = if length xs % 2 == 0 then xs else xs ++ (0 ∷ [])

-- The first 50 bytes of a command of `total` bytes whose message has `size` bytes: the encapsulation
-- header with the session, the two items, and the unconnected send.
unfoldable pub prefix : ℕ → ℕ → ℕ → List ℕ
prefix session total size =
    0x6F
    ∷ 0
    ∷ (put_uint16 little ((total - 24) % 65536)
        ++ (put_uint32 little session
            ++ (replicate 20 0
                ++ (0x01
                    ∷ 0
                    ∷ 0x02
                    ∷ 0
                    ∷ 0
                    ∷ 0
                    ∷ 0
                    ∷ 0
                    ∷ 0xB2
                    ∷ 0
                    ∷ (put_uint16 little ((total - 40) % 65536)
                        ++ (0x52
                            ∷ 0x02
                            ∷ 0x20
                            ∷ 0x06
                            ∷ 0x24
                            ∷ 0x01
                            ∷ 0x0A
                            ∷ 0xF0
                            ∷ put_uint16 little (size % 65536)))))))

-- The service and the path to the tag.
unfoldable pub service : ℕ → List ℕ → List ℕ
service code tag =
    code ∷ ((length (aligned tag) + 2) / 2 % 256) ∷ 0x91 ∷ (length tag % 256) ∷ aligned tag

-- The route to the processor in a slot.
abbrev pub route : ℕ → List ℕ
route slot = 0x01 ∷ 0 ∷ 0x01 ∷ slot ∷ []

unfoldable pub build_read_command : ℕ → ℕ → List ℕ → ℕ → List ℕ
build_read_command session slot tag count =
    let n = length (aligned tag) in
    prefix session (9 + 26 + n + 1 + 24) (6 + n)
    ++ (service 0x4C tag ++ (put_uint16 little count ++ route slot))

unfoldable pub build_write_command : ℕ → ℕ → List ℕ → ℕ → List ℕ → ℕ → List ℕ
build_write_command session slot tag type_code payload count =
    let n = length (aligned tag) in
    prefix session (8 + 26 + n + length payload + 4 + 24) (8 + length payload + n)
    ++ (service 0x4D tag
        ++ (put_uint16 little type_code ++ (put_uint16 little count ++ (payload ++ route slot))))

-- The test is made on the trimmed tag.
abbrev pub validate_trimmed : List ℕ → Outcome (Unit {0})
validate_trimmed [] = err empty_tag
validate_trimmed (c ∷ tag) = if ltb 255 (length (c ∷ tag)) then err tag_too_long else ok tt

unfoldable pub validate_allen_tag : List ℕ → Outcome (Unit {0})
validate_allen_tag address = validate_trimmed (trim_space address)
