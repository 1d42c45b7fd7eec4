-- ===== src/AllenBradley/Frame/Lengths.antt =====
-- The length fields of the commands.
use go_iot_client.Base.{
  ℕ, ◌+◌, ◌-◌, ◌*◌, ◌/◌, ◌%◌, ◌≤◌, ◌<◌, ◌≡◌, refl, sym, ap, ◌∙◌, ◌↔◌, List, [], ◌∷◌, ◌++◌, length,
  length-append, arith,
}
use go_iot_client.Base.Outcome.{ok}
use go_iot_client.Base.Words.{little, put_uint16}
use go_iot_client.Base.Slices.{word_at}
use go_iot_client.AllenBradley.Frame.{
  aligned, prefix, service, build_read_command, build_write_command,
}

length-aligned : (xs : List ℕ) → length (aligned xs) ≡ length xs + length xs % 2
unfolding aligned
length-aligned xs = ground (arith, length-append xs (0 ∷ []))

-- The length fields of a command in its first 50 bytes: of what follows the header of 24 bytes, of what
-- follows the items at 40, and of the message at 50, which 4 bytes of route follow.
abbrev pub Framed : List ℕ → Type 0
Framed cmd =
    (word_at little cmd 2 ≡ ok (length cmd - 24))
    × ((word_at little cmd 38 ≡ ok (length cmd - 40))
        × (word_at little cmd 48 ≡ ok (length cmd - 54)))

word_of : (v : ℕ) → v < 65536 → v / 256 % 256 * 256 + v % 256 ≡ v
word_of v h = omega arith

prefix-fields :
    (session total size : ℕ) (rest : List ℕ)
    → let cmd = prefix session total size ++ rest in
      (word_at little cmd 2 ≡ ok ((total - 24) % 65536))
      × ((word_at little cmd 38 ≡ ok ((total - 40) % 65536))
          × (word_at little cmd 48 ≡ ok (size % 65536)))
unfolding prefix word_at
prefix-fields session total size rest = (
  ap ok (word_of ((total - 24) % 65536) (omega arith)),
  (
    ap ok (word_of ((total - 40) % 65536) (omega arith)),
    ap ok (word_of (size % 65536) (omega arith)),
  ),
)

length-prefix : (session total size : ℕ) → length (prefix session total size) ≡ 50
unfolding prefix
length-prefix session total size = refl

length-service : (code : ℕ) (tag : List ℕ) → length (service code tag) ≡ 4 + length (aligned tag)
unfolding service
length-service code tag = omega arith

-- The bytes that the code makes room for are the ones that it fills.
length-build_read_command :
    (session slot : ℕ) (tag : List ℕ) (count : ℕ)
    → length (build_read_command session slot tag count) ≡ 60 + length (aligned tag)
unfolding build_read_command
length-build_read_command session slot tag count = omega (
  arith,
  length-append (prefix session (9 + 26 + length (aligned tag) + 1 + 24) (6 + length (aligned tag)))
      (service 0x4C tag ++ (put_uint16 little count ++ (0x01 ∷ 0 ∷ 0x01 ∷ slot ∷ []))),
  length-prefix session (9 + 26 + length (aligned tag) + 1 + 24) (6 + length (aligned tag)),
  length-append (service 0x4C tag) (put_uint16 little count ++ (0x01 ∷ 0 ∷ 0x01 ∷ slot ∷ [])),
  length-service 0x4C tag,
)

length-build_write_command :
    (session slot : ℕ) (tag : List ℕ) (type_code : ℕ) (payload : List ℕ) (count : ℕ)
    → length (build_write_command session slot tag type_code payload count)
      ≡ 62 + length (aligned tag) + length payload
unfolding build_write_command
length-build_write_command session slot tag type_code payload count =
    let head =
      prefix session (8 + 26 + length (aligned tag) + length payload + 4 + 24)
        (8 + length payload + length (aligned tag)) in
    let route = 0x01 ∷ 0 ∷ 0x01 ∷ slot ∷ [] in
    let behind = put_uint16 little type_code ++ (put_uint16 little count ++ (payload ++ route)) in
    omega (
      arith,
      length-append head (service 0x4D tag ++ behind),
      length-prefix session (8 + 26 + length (aligned tag) + length payload + 4 + 24)
          (8 + length payload + length (aligned tag)),
      length-append (service 0x4D tag) behind,
      length-service 0x4D tag,
      length-append payload route,
    )

counted : (v w : ℕ) → v ≡ w → v < 65536 → ok (v % 65536) ≡ ok w
counted v w e h = ap ok (omega arith)

prefix-Framed :
    (session total size : ℕ) (rest : List ℕ)
    → length (prefix session total size ++ rest) ≡ total
    → size + 54 ≡ total
    → total < 65560
    → Framed (prefix session total size ++ rest)
prefix-Framed session total size rest e f h =
    let (whole, (items, message)) = prefix-fields session total size rest in
    (
      whole ∙ counted (total - 24) _ (omega arith) (omega arith),
      (
        items ∙ counted (total - 40) _ (omega arith) (omega arith),
        message ∙ counted size _ (omega arith) (omega arith),
      ),
    )

read-Framed :
    (session slot : ℕ) (tag : List ℕ) (count : ℕ)
    → length tag ≤ 255
    → Framed (build_read_command session slot tag count)
unfolding build_read_command
read-Framed session slot tag count h =
    let all = length-build_read_command session slot tag count in
    prefix-Framed session (9 + 26 + length (aligned tag) + 1 + 24) (6 + length (aligned tag)) _
      (omega arith) (omega arith) (omega (arith, length-aligned tag))

write-Framed :
    (session slot : ℕ) (tag : List ℕ) (type_code : ℕ) (payload : List ℕ) (count : ℕ)
    → length (build_write_command session slot tag type_code payload count) < 65560
    → Framed (build_write_command session slot tag type_code payload count)
unfolding build_write_command
write-Framed session slot tag type_code payload count h =
    let all = length-build_write_command session slot tag type_code payload count in
    prefix-Framed session (8 + 26 + length (aligned tag) + length payload + 4 + 24)
      (8 + length payload + length (aligned tag)) _ (omega arith) (omega arith) (omega arith)

ok_injective : (v w : ℕ) → ok v ≡ ok w → v ≡ w
ok_injective v w e = cc

Framed-write :
    (session slot : ℕ) (tag : List ℕ) (type_code : ℕ) (payload : List ℕ) (count : ℕ)
    → Framed (build_write_command session slot tag type_code payload count)
    → length (build_write_command session slot tag type_code payload count) < 65560
unfolding build_write_command
Framed-write session slot tag type_code payload count framed =
    let all = length-build_write_command session slot tag type_code payload count in
    let field =
      prefix-fields session (8 + 26 + length (aligned tag) + length payload + 4 + 24)
        (8 + length payload + length (aligned tag)) _ in
    let same = ok_injective _ _ (sym field.0 ∙ framed.0) in omega arith

-- For every tag of at most 255 characters: a read command carries in its three length fields the number of
-- bytes behind the header, behind the field of the items, and of the message, without the 4 bytes of the route;
-- a write command does exactly when it has fewer than 65560 bytes.
pub allen_commands-Framed :
    (session slot : ℕ) (tag : List ℕ) (type_code : ℕ) (payload : List ℕ) (count : ℕ)
    → length tag ≤ 255
    → Framed (build_read_command session slot tag count)
      × (Framed (build_write_command session slot tag type_code payload count)
          ↔ (length (build_write_command session slot tag type_code payload count) < 65560))
allen_commands-Framed session slot tag type_code payload count h = (
  read-Framed session slot tag count h,
  (
    Framed-write session slot tag type_code payload count,
    write-Framed session slot tag type_code payload count,
  ),
)
