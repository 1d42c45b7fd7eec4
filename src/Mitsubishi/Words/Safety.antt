-- ===== src/Mitsubishi/Words/Safety.antt =====
-- Which payloads the client can make, and what it makes of a response.
use go_iot_client.Base.{
  ℕ, zero, suc, ◌*◌, ◌%◌, ◌≤◌, ◌<◌, ◌≡◌, refl, List, [], ◌∷◌, ◌++◌, length, arith,
}
use go_iot_client.Base.Int.{ℤ}
use go_iot_client.Base.Words.{little, words_to_bytes, fill_words}
use go_iot_client.Base.Words.Laws.{Words, read_words-Words, fill_words-words_to_bytes}
use go_iot_client.Base.Outcome.{
  Outcome, ok, err, panic, lift, continue, Meets, continue-Meets, weaken-Meets, NoPanic,
}
use go_iot_client.Net.{Net, IsLawful, State}
use go_iot_client.Net.Keeps.{Keeps}
use go_iot_client.Mitsubishi.Client.{Client, Call}
use go_iot_client.Mitsubishi.Request.{send_request}
use go_iot_client.Mitsubishi.Request.Safety.{SameSettings, send_request-Meets}
use go_iot_client.Mitsubishi.Words.{
  device_range, words_of, write_payload, read_words_from, write_words,
}

-- The decoding of any response returns: an error, or as many words as were asked for.
pub words_of-Words : (count : ℕ) (resp : List ℕ) → Words count (words_of count resp)
unfolding words_of
words_of-Words count resp = ground (arith, read_words-Words little count resp)

-- A buffer that is too small for the words.
fill_words-panics :
    (room : ℕ) (vs : List ℕ) → room < length vs * 2 → fill_words little room vs ≡ panic
unfolding fill_words
fill_words-panics room [] h = absurd (omega arith)
fill_words-panics zero (v ∷ vs) h = refl
fill_words-panics (suc zero) (v ∷ vs) h = refl
fill_words-panics (suc (suc room)) (v ∷ vs) h = rw (fill_words-panics room vs (omega arith))

-- Up to 65535 words the payload of a write is the device range and the bytes of all words; from 65536
-- words on, the count wraps, the buffer is too small and the client panics.
pub write_payload-cases :
    (addr : ℕ) (values : List ℕ)
    → (length values < 65536
        → write_payload addr values
          ≡ ok (device_range addr (length values) ++ words_to_bytes little values))
      × (65536 ≤ length values → write_payload addr values ≡ panic)
unfolding write_payload
write_payload-cases addr values = (
  λ h. rw (fits h, fill_words-words_to_bytes little values) refl,
  λ h. rw (fill_words-panics (length values % 65536 * 2) values (omega arith)) refl,
)
  where
    fits : length values < 65536 → length values % 65536 ≡ length values
    fits h = omega arith

write_payload-NoPanic :
    (addr : ℕ) (values : List ℕ) → length values < 65536 → NoPanic (write_payload addr values)
write_payload-NoPanic addr values h = rw ((write_payload-cases addr values).0 h) tt

module _ (N : Net) (L : IsLawful N) (s : State N (Client N)) where
  abbrev pub Same : {A : Type 0} → Outcome A × State N (Client N) → Type 0
  Same r = Keeps (SameSettings s.client) r

  request_then :
      {B : Type 0} (command subcommand : ℕ) (payload : List ℕ) (check : List ℕ → Outcome B)
      (P : B → Type 0)
      → ((resp : List ℕ) → Meets (λ b (_ : Unit {0}). P b) (λ _ _. Unit {0}) (check resp, tt))
      → (timeout : ℤ)
      → Meets
          (λ b s'. P b × SameSettings s.client s'.client)
          (λ _ s'. SameSettings s.client s'.client)
          (continue
            (send_request N command subcommand payload timeout s)
            (λ resp. lift (check resp)))
  request_then command subcommand payload check P g timeout =
      continue-Meets (λ _ s'. SameSettings s.client s'.client) _ _
        (send_request N command subcommand payload timeout s) _
        (weaken-Meets _ (λ _ s'. SameSettings s.client s'.client) _
          (λ _ s'. SameSettings s.client s'.client)
          (send_request N command subcommand payload timeout s)
          (send_request-Meets N L s command subcommand payload timeout) (λ _ _ h. h.0)
          (λ _ _ h. h.0))
        λ resp s' h. ground (arith, g resp)

  pub read_words_from-Meets :
      (addr count : ℕ)
      → Meets
          (λ ws s'. (length ws ≡ count) × SameSettings s.client s'.client)
          (λ _ s'. SameSettings s.client s'.client)
          (read_words_from N addr count s)
  unfolding read_words_from
  read_words_from-Meets addr count = ground (
    arith,
    request_then 0x0401 0x0000 (device_range addr count) (words_of count) (λ ws. length ws ≡ count)
        (λ resp. ground (arith, words_of-Words count resp)) s.client.read_timeout,
  )

  pub lift_then :
      {A B : Type 0} (r : Outcome A) (f : A → Call N B)
      → NoPanic r
      → ((a : A) → Same (f a s))
      → Same (continue (lift r s) f)
  lift_then (ok a) f n k = k a
  lift_then (err e) f n k = refl
  lift_then panic f n k = n

  pub write_words-Same :
      (addr : ℕ) (values : List ℕ) → length values < 65536 → Same (write_words N addr values s)
  unfolding write_words
  write_words-Same addr values h =
      lift_then (write_payload addr values) _ (write_payload-NoPanic addr values h) λ payload.
        weaken-Meets (λ _ s'. Unit {0} × SameSettings s.client s'.client) _
          (λ _ s'. SameSettings s.client s'.client) _
          (continue (send_request N 0x1401 0x0000 payload s.client.write_timeout s)
            (λ _. lift (ok tt)))
          (request_then 0x1401 0x0000 payload (λ _. ok tt) (λ _. Unit {0}) (λ _. tt)
            s.client.write_timeout)
          (λ _ _ g. g.1) (λ _ _ g. g)
