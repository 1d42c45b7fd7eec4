-- ===== src/Net/Stream/Steps.antt =====
-- What follows a read that took the next bytes off a stream.
use go_iot_client.Base.{ℕ, ◌≡◌, refl, sym, ap, ◌∙◌, List, [], ◌++◌, length, arith}
use mathlib.Core.Path.{subst}
use go_iot_client.Base.Outcome.{Outcome, ok, err, panic, M, continue}
use go_iot_client.Net.{State, on_world}
use go_iot_client.Net.Stream.{Peer, Line, sent, stream}
use go_iot_client.Net.Stream.Laws.{Reads, line, read_full-Reads}
use go_iot_client.Net.Full.{read_full}

module _ (P : Peer) (xs rest : List ℕ) (d : P.Device) where
  pub read_then :
      {B : Type 0} (f : List ℕ → M (Line P.Device) B) (Q : Outcome B × Line P.Device → Type 0)
      (r : Outcome (List ℕ) × Line P.Device)
      → Reads P xs rest d r
      → ((pace : List ℕ) → Q (f xs (line P d rest pace)))
      → Q (continue r f)
  read_then f Q (ok ys, w) h k =
      subst (λ zs. Q (f zs w)) (sym h.0)
        (subst (λ i. Q (f xs (line P w.device i w.pace))) (sym h.1)
          (subst (λ e. Q (f xs (line P e rest w.pace))) (sym h.2) (k w.pace)))
  read_then f Q (err e, w) h k = absurd h
  read_then f Q (panic, w) h k = absurd h

module _ {C : Type 0} (P : Peer) (s : State (stream P) C) (xs rest : List ℕ) (d : P.Device) where
  -- The same in a call of a client.
  pub read_result :
      {B : Type 0} (f : List ℕ → M (State (stream P) C) B)
      (Q : Outcome B × State (stream P) C → Type 0) (r : Outcome (List ℕ) × Line P.Device)
      → Reads P xs rest d r
      → ((pace : List ℕ) → Q (f xs (record s { world = line P d rest pace })))
      → Q (continue (on_world (stream P) (λ _. r) s) f)
  read_result f Q (ok ys, w) h k =
      subst (λ zs. Q (f zs (record s { world = w }))) (sym h.0)
        (subst (λ i. Q (f xs (record s { world = line P w.device i w.pace }))) (sym h.1)
          (subst (λ e. Q (f xs (record s { world = line P e rest w.pace }))) (sym h.2) (k w.pace)))
  read_result f Q (err e, w) h k = absurd h
  read_result f Q (panic, w) h k = absurd h

module _ {B : Type 0} (P : Peer) (n : ℕ) (xs rest pace : List ℕ) (d : P.Device) where
  pub bytes_then :
      (f : List ℕ → M (Line P.Device) B) (Q : Outcome B × Line P.Device → Type 0)
      → length xs ≡ n
      → ((pace' : List ℕ) → Q (f xs (line P d rest pace')))
      → Q (continue (read_full (stream P) tt n (line P d (xs ++ rest) pace)) f)
  bytes_then f Q l k =
      read_then P xs rest d f Q (read_full (stream P) tt n (line P d (xs ++ rest) pace))
        (read_full-Reads P n xs rest (line P d (xs ++ rest) pace) l refl) k

  pub bytes_result :
      {C : Type 0} (c : C) (f : List ℕ → M (State (stream P) C) B)
      (Q : Outcome B × State (stream P) C → Type 0)
      → length xs ≡ n
      → ((pace' : List ℕ) → Q (f xs (record { client = c; world = line P d rest pace' })))
      → Q (
          continue
            (on_world
              (stream P)
              (read_full (stream P) tt n)
              (record { client = c; world = line P d (xs ++ rest) pace }))
            f)
  bytes_result c f Q l k =
      read_result P (record { client = c; world = line P d (xs ++ rest) pace }) xs rest d f Q
        (read_full (stream P) tt n (line P d (xs ++ rest) pace))
        (read_full-Reads P n xs rest (line P d (xs ++ rest) pace) l refl) k

-- What is left of a call: its outcome, the client, the device, and nothing to read.
abbrev pub Answered :
    {C A : Type 0} (P : Peer) → Outcome A → C → P.Device → Outcome A × State (stream P) C → Type 0
Answered P r c d (out, s) = (out ≡ r) × (s.client ≡ c) × (s.world.device ≡ d) × (s.world.inbox ≡ [])

-- What follows such a call starts from what it left.
pub continue-Answered :
    {C A B : Type 0} (P : Peer) (a : A) (q : Outcome B) (c c' : C) (d d' : P.Device)
    (r : Outcome A × State (stream P) C) (f : A → M (State (stream P) C) B)
    → Answered P (ok a) c d r
    → ((s : State (stream P) C)
        → s.client ≡ c
        → s.world.device ≡ d
        → s.world.inbox ≡ []
        → Answered P q c' d' (f a s))
    → Answered P q c' d' (continue r f)
continue-Answered P a q c c' d d' (ok b, s) f h k =
    let same : b ≡ a = ground (arith, h.0) in
    subst (λ x. Answered P q c' d' (f x s)) (sym same) (k s h.1 h.2 h.3)
continue-Answered P a q c c' d d' (err e, s) f h k = absurd (ground (arith, h.0))
continue-Answered P a q c c' d d' (panic, s) f h k = absurd (ground (arith, h.0))

-- What the device sends for a frame, where there was nothing to read.
pub arrived :
    (P : Peer) (frame reply : List ℕ) (d : P.Device) (w : Line P.Device)
    → w.inbox ≡ []
    → P.answer frame w.device ≡ (reply, d)
    → sent P (P.answer frame w.device) w ≡ line P d reply w.pace
arrived P frame reply d w empty answered =
    ap (λ a. sent P a w) answered ∙ ap (λ i. line P d (i ++ reply) w.pace) empty
