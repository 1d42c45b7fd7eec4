-- ===== src/Net/Stream/Laws.antt =====
-- The stream meets the documentation, and `io.ReadFull` reads it exactly.
use go_iot_client.Base.{
  ℕ, zero, suc, ◌-◌, ◌≤◌, ◌<◌, ◌≡◌, refl, sym, ap, ◌∙◌, none, List, [], ◌∷◌, ◌++◌, length, take,
  drop, length-take, length-drop, append-nil, append_assoc, take-append-drop, take_prefix,
  drop_prefix, arith,
}
use Prim.Native.Nat.{min}
use mathlib.Core.Path.{ap₂, subst}
use go_iot_client.Base.Outcome.{Outcome, ok, M, Meets}
use go_iot_client.Net.{IsLawful}
use go_iot_client.Net.Stream.{Peer, Line, chunk, later, deliver, stream}
use go_iot_client.Net.Full
use go_iot_client.Net.Full.{read_full}

module _ (P : Peer) where
  deliver-fits : (xs : List ℕ) (n : ℕ) (w : Line P.Device) → length (deliver P xs n w).0.bytes ≤ n
  deliver-fits [] n w = omega arith
  deliver-fits (x ∷ xs) n w = omega (arith, length-take (min n (chunk w.pace)) (x ∷ xs))

  chunk-pos : (ps : List ℕ) → 0 < chunk ps
  chunk-pos [] = omega arith
  chunk-pos (p ∷ ps) = omega arith

  deliver-progress :
      (xs : List ℕ) (n : ℕ) (w : Line P.Device)
      → 0 < n
      → (deliver P xs n w).0.error ≡ none
      → 0 < length (deliver P xs n w).0.bytes
  deliver-progress [] n w h e = cc
  deliver-progress (x ∷ xs) n w h e =
      omega (arith, length-take (min n (chunk w.pace)) (x ∷ xs), chunk-pos w.pace)

  pub stream-IsLawful : IsLawful (stream P)
  stream-IsLawful = record {
    read-fits = λ c n w. deliver-fits w.inbox n w;
    read-progress = λ c n w. deliver-progress w.inbox n w;
    dial-returns = λ a t w e. cc;
    serial-returns = λ a m w e. cc;
  }

  -- A call that reads `xs` off the stream, leaves `rest` on it and the device as it was.
  abbrev pub Reads : List ℕ → List ℕ → P.Device → Outcome (List ℕ) × Line P.Device → Type 0
  Reads xs rest d r = Meets (λ ys w. (ys ≡ xs) × (w.inbox ≡ rest) × (w.device ≡ d)) (λ _ _. ⊥) r

  abbrev pub line : P.Device → List ℕ → List ℕ → Line P.Device
  line d inbox pace = record { device = d; inbox = inbox; pace = pace }

-- A loop that goes on with what a read brought, until nothing is missing.
module _ (P : Peer) (loop : ℕ → ℕ → List ℕ → M (Line P.Device) (List ℕ))
    (done : (fuel : ℕ) (got : List ℕ) (w : Line P.Device) → loop fuel 0 got w ≡ (ok got, w))
    (step : (fuel missing : ℕ) (got : List ℕ) (b : ℕ) (bs : List ℕ) (d : P.Device) (pace : List ℕ)
      → let k = min (suc missing) (chunk pace) in
        loop (suc fuel) (suc missing) got (line P d (b ∷ bs) pace)
        ≡ loop fuel
            (suc missing - length (take k (b ∷ bs)))
            (got ++ take k (b ∷ bs))
            (line P d (drop k (b ∷ bs)) (later pace))) where
  loop-Reads :
      (fuel missing : ℕ) (got xs rest : List ℕ) (d : P.Device) (pace : List ℕ)
      → missing ≤ fuel
      → length xs ≡ missing
      → Reads P (got ++ xs) rest d (loop fuel missing got (line P d (xs ++ rest) pace))
  loop-Reads fuel zero got [] rest d pace h l =
      rw (done fuel got (line P d rest pace)) (sym (append-nil got), refl, refl)
  loop-Reads fuel zero got (x ∷ xs) rest d pace h l = absurd (omega arith)
  loop-Reads zero (suc missing) got xs rest d pace h l = absurd (omega arith)
  loop-Reads (suc fuel) (suc missing) got [] rest d pace h l = absurd (omega arith)
  loop-Reads (suc fuel) (suc missing) got (x ∷ xs) rest d pace h l =
      rw (step fuel missing got x (xs ++ rest) d pace ∙ cut, split)
        (loop-Reads fuel (suc missing - length (take k (x ∷ xs))) (got ++ take k (x ∷ xs))
          (drop k (x ∷ xs)) rest d (later pace)
          (omega (arith, length-take k (x ∷ xs), chunk-pos P pace))
          (omega (arith, length-take k (x ∷ xs), length-drop k (x ∷ xs))))
    where
      k : ℕ
      k = min (suc missing) (chunk pace)

      fits : k ≤ length (x ∷ xs)
      fits = omega arith

      next : List ℕ → List ℕ → Outcome (List ℕ) × Line P.Device
      next bs inbox = loop fuel (suc missing - length bs) (got ++ bs) (line P d inbox (later pace))

      cut :
          next (take k ((x ∷ xs) ++ rest)) (drop k ((x ∷ xs) ++ rest))
          ≡ next (take k (x ∷ xs)) (drop k (x ∷ xs) ++ rest)
      cut = ap₂ next (take_prefix k (x ∷ xs) rest fits) (drop_prefix k (x ∷ xs) rest fits)

      split : got ++ (x ∷ xs) ≡ (got ++ take k (x ∷ xs)) ++ drop k (x ∷ xs)
      split =
          ap (λ t. got ++ t) (sym (take-append-drop k (x ∷ xs)))
          ∙ sym (append_assoc got (take k (x ∷ xs)) (drop k (x ∷ xs)))

  -- Such a loop takes exactly the next bytes off the stream, however they are cut into chunks.
  pub filled-Reads :
      (n : ℕ) (xs rest : List ℕ) (w : Line P.Device)
      → length xs ≡ n
      → w.inbox ≡ xs ++ rest
      → Reads P xs rest w.device (loop n n [] w)
  filled-Reads n xs rest w l e =
      subst (λ inbox. Reads P xs rest w.device (loop n n [] (line P w.device inbox w.pace))) (sym e)
        (loop-Reads n n [] xs rest w.device w.pace (omega arith) l)

module _ (P : Peer) where
  pub read_full-Reads :
      (n : ℕ) (xs rest : List ℕ) (w : Line P.Device)
      → length xs ≡ n
      → w.inbox ≡ xs ++ rest
      → Reads P xs rest w.device (Full.read_full (stream P) tt n w)
  unfolding Full.read_full Full.full_loop
  read_full-Reads =
      filled-Reads P (Full.full_loop (stream P) tt) (λ fuel got w. refl)
        (λ fuel missing got b bs d pace. refl)
