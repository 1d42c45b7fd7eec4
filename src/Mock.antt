-- ===== src/Mock.antt =====
-- mock/server.go: a PLC with D registers that speaks the 3E protocol.
pub mod Exchange
pub mod Memory
pub mod Requests
pub mod Methods
pub mod Recovery
pub mod Session
use go_iot_client.Base.{
  ℕ, zero, suc, ◌+◌, ◌*◌, ◌%◌, Bool, true, false, not, List, [], ◌∷◌, ◌++◌, length, drop, ltb, ◌==◌,
  if◌then◌else◌,
}
use go_iot_client.Base.Outcome.{Outcome, ok, bind}
use go_iot_client.Base.Words.{little, put_uint16, fill_words, read_words}
use go_iot_client.Base.Slices.{index, word_at}

-- The fields of `Server` that requests work on. A map without a key reads as 0.
pub record Server : Type 0 where
  pub words : ℕ → ℕ
  pub fail_next_request : Bool
  pub fail_with_end_code : ℕ

abbrev pub update : (ℕ → ℕ) → ℕ → ℕ → ℕ → ℕ
update words addr value a = if addr == a then value else words a

unfoldable pub set_word : ℕ → ℕ → Server → Server
set_word addr value s = record s { words = update s.words addr value }

unfoldable pub get_word : ℕ → Server → ℕ
get_word addr s = s.words addr

unfoldable pub fail_next : ℕ → Server → Server
fail_next end_code s = record s { fail_next_request = true; fail_with_end_code = end_code }

-- The words from `addr` on, by the loop of `handleRead`; `addr+i` is a uint16.
unfoldable pub cells : (ℕ → ℕ) → ℕ → ℕ → List ℕ
cells words addr zero = []
cells words addr (suc n) = words addr ∷ cells words ((addr + 1) % 65536) n

-- The loop of `handleWrite`.
unfoldable pub store : (ℕ → ℕ) → ℕ → List ℕ → ℕ → ℕ
store words addr [] = words
store words addr (v ∷ vs) = store (update words addr v) ((addr + 1) % 65536) vs

-- `resp` with a length of 2 and an end code.
abbrev pub coded : List ℕ → ℕ → List ℕ
coded resp end_code = resp ++ (put_uint16 little 2 ++ put_uint16 little end_code)

abbrev device_code_d : ℕ
device_code_d = 0xA8

unfoldable pub handle_read : Server → List ℕ → List ℕ → Outcome (List ℕ)
handle_read s resp request =
    if ltb (length request) 6
    then ok (coded resp 0xC0E1)
    else bind (word_at little request 0) (λ addr. bind (index request 3) (λ code.
      bind (word_at little request 4) (λ count.
        if not (code == device_code_d)
        then ok (coded resp 0xC051)
        else bind (fill_words little (count * 2 % 65536) (cells s.words addr count)) (λ body. ok (
            resp
            ++ (put_uint16 little ((2 + length body) % 65536) ++ (put_uint16 little 0 ++ body)))))))

-- A request has at most 65535 bytes behind its header, so `6+i*2` in uint16 does not wrap.
unfoldable pub handle_write : Server → List ℕ → List ℕ → Outcome (List ℕ × Server)
handle_write s resp request =
    if ltb (length request) 6
    then ok (coded resp 0xC0E1, s)
    else bind (word_at little request 0) (λ addr. bind (index request 3) (λ code.
      bind (word_at little request 4) (λ count.
        if not (code == device_code_d)
        then ok (coded resp 0xC051, s)
        else if ltb (length request) (6 + count * 2)
        then ok (coded resp 0xC0E1, s)
        else bind (read_words little count (drop 6 request))
            (λ values. ok (coded resp 0x0000, record s { words = store s.words addr values })))))

-- `processRequest` behind its check of `failNextRequest`.
unfoldable pub dispatch : Server → List ℕ → List ℕ → Outcome (List ℕ × Server)
dispatch s resp request =
    if ltb (length request) 6
    then ok (coded resp 0xC0E1, s)
    else bind (word_at little request 2) (λ cmd. bind (word_at little request 4) (λ subcmd.
      if not (subcmd == 0x0000)
      then ok (coded resp 0xC002, s)
      else if cmd == 0x0401
      then bind (handle_read s resp (drop 6 request)) (λ out. ok (out, s))
      else if cmd == 0x1401
      then handle_write s resp (drop 6 request)
      else ok (coded resp 0xC001, s)))

-- The end code of an injected failure.
abbrev pub injected : ℕ → ℕ
injected end_code = if end_code == 0 then 0xC020 else end_code

-- The first bytes of a response: its subheader, and the route of the request.
unfoldable pub response_head : List ℕ → Outcome (List ℕ)
response_head header = bind (index header 2) (λ network_no. bind (index header 3) (λ station_no.
    bind (word_at little header 4) (λ module_io. bind (index header 6) (λ multidrop. ok (
      put_uint16 little 0xD000
      ++ (network_no ∷ station_no ∷ (put_uint16 little module_io ++ (multidrop ∷ []))))))))

abbrev pub process_on : Bool → Server → List ℕ → List ℕ → Outcome (List ℕ × Server)
process_on true s resp request =
    ok (coded resp (injected s.fail_with_end_code), record s { fail_next_request = false })
process_on false s resp request = dispatch s resp request

unfoldable pub process_request : Server → List ℕ → List ℕ → Outcome (List ℕ × Server)
process_request s header request =
    bind (response_head header) (λ resp. process_on s.fail_next_request s resp request)
