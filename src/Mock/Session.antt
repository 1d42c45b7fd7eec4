-- ===== src/Mock/Session.antt =====
-- `handleConn` of mock/server.go: one round of its loop for each request.
use go_iot_client.Base.{
  ℕ, zero, suc, ◌+◌, ◌*◌, ◌/◌, ◌%◌, ◌<◌, ◌≡◌, refl, ap, ◌∙◌, false, List, [], ◌∷◌, ◌++◌, length,
  take, drop, take_all, append-nil, All, ltb, if◌then◌else◌, arith,
}
use go_iot_client.Base.Outcome.{Outcome, ok, err, panic, bind}
use go_iot_client.Base.Words.{IsWord, little, put_uint16, words_to_bytes, fill_words}
use go_iot_client.Base.Words.Laws.{
  read_words-words_to_bytes, length-words_to_bytes, fill_words-words_to_bytes,
}
use go_iot_client.Base.Slices.{index, word_at}
use go_iot_client.Net.{Net}
use go_iot_client.Net.Stream.{Peer}
use go_iot_client.Mitsubishi.Client.{Client}
use go_iot_client.Mitsubishi.Request.{request_frame}
use go_iot_client.Mitsubishi.Words.{device_range}
use go_iot_client.Mock.{
  Server, cells, store, coded, handle_read, handle_write, dispatch, response_head, process_on,
  process_request,
}

-- A handler that panics sends nothing.
abbrev pub replied : Server → Outcome (List ℕ × Server) → List ℕ × Server
replied s (ok r) = r
replied s (err e) = ([], s)
replied s panic = ([], s)

-- A request that comes in one `Write`: nine bytes, and as many behind them as they say. What is shorter
-- gets no answer.
unfoldable pub handle_conn : List ℕ → Server → List ℕ × Server
handle_conn request s =
    if ltb (length request) 9
    then ([], s)
    else replied s (
        bind (word_at little request 7) (λ data_len.
          if ltb (length (drop 9 request)) data_len
          then ok ([], s)
          else process_request s (take 9 request) (take data_len (drop 9 request))))

abbrev pub mock_peer : Peer
mock_peer = record { Device = Server; answer = handle_conn }

-- A write of words stores them.
pub handle_write-stores :
    (s : Server) (resp : List ℕ) (addr : ℕ) (values : List ℕ)
    → addr < 65536
    → length values < 65536
    → All IsWord values
    → handle_write s resp (device_range addr (length values) ++ words_to_bytes little values)
      ≡ ok (coded resp 0x0000, record s { words = store s.words addr values })
unfolding handle_write index word_at
handle_write-stores s resp addr values h small w = ground (
  arith,
  length-words_to_bytes little values,
  read_words-words_to_bytes little values [] w,
  append-nil (words_to_bytes little values),
)

pub length-cells : (words : ℕ → ℕ) (addr n : ℕ) → length (cells words addr n) ≡ n
unfolding cells
length-cells words addr zero = refl
length-cells words addr (suc n) = ap suc (length-cells words ((addr + 1) % 65536) n)

pub handle_read-cells :
    (s : Server) (resp : List ℕ) (addr count : ℕ)
    → addr < 65536
    → count < 32767
    → let body = words_to_bytes little (cells s.words addr count) in
      handle_read s resp (device_range addr count)
      ≡ ok (resp ++ (put_uint16 little (2 + count * 2) ++ (put_uint16 little 0 ++ body)))
unfolding handle_read index word_at
handle_read-cells s resp addr count h small =
    rw (same_word addr h, same_word count (omega arith), filled, size) refl
  where
    same_word : (n : ℕ) → n < 65536 → n / 256 % 256 * 256 + n % 256 ≡ n
    same_word n k = omega arith

    values : List ℕ
    values = cells s.words addr count

    filled : fill_words little (count * 2 % 65536) values ≡ ok (words_to_bytes little values)
    filled =
        ap (λ (room : ℕ). fill_words little room values)
          (omega (arith, length-cells s.words addr count))
        ∙ fill_words-words_to_bytes little values

    size : (2 + length (words_to_bytes little values)) % 65536 ≡ 2 + count * 2
    size = omega (arith, length-words_to_bytes little values, length-cells s.words addr count)

-- The first seven bytes of every answer to a client's request.
abbrev pub answer_head : {N : Net} → Client N → List ℕ
answer_head c =
    0x00
    ∷ 0xD0
    ∷ c.network_no
    ∷ c.station_no
    ∷ (put_uint16 little (c.module_io % 65536) ++ (c.multidrop_station ∷ []))

-- What the server makes of a frame of the client.
pub handle_conn-process_on :
    {N : Net} (c : Client N) (s : Server) (command subcommand : ℕ) (payload : List ℕ)
    → 6 + length payload < 65536
    → handle_conn (request_frame c command subcommand payload) s
      ≡ replied s (
          process_on s.fail_next_request s (answer_head c) (
            put_uint16 little c.monitoring_timer
            ++ (put_uint16 little command ++ (put_uint16 little subcommand ++ payload))))
unfolding handle_conn request_frame process_request response_head word_at index
handle_conn-process_on c s command subcommand payload h =
    rw (counted) (ground (arith, take_all (length body) body (omega arith)))
  where
    body : List ℕ
    body =
        put_uint16 little c.monitoring_timer
        ++ (put_uint16 little command ++ (put_uint16 little subcommand ++ payload))

    counted :
        (6 + length payload) % 65536 / 256 % 256 * 256 + (6 + length payload) % 65536 % 256
        ≡ length body
    counted = omega arith

-- The server has no failure to inject.
pub handle_conn-frame :
    {N : Net} (c : Client N) (s : Server) (command subcommand : ℕ) (payload : List ℕ)
    → 6 + length payload < 65536
    → s.fail_next_request ≡ false
    → handle_conn (request_frame c command subcommand payload) s
      ≡ replied s (
          dispatch s (answer_head c) (
            put_uint16 little c.monitoring_timer
            ++ (put_uint16 little command ++ (put_uint16 little subcommand ++ payload))))
handle_conn-frame c s command subcommand payload h plain =
    rw (handle_conn-process_on c s command subcommand payload h, plain) refl
