-- ===== src/Siemens/Api/Store.antt =====
-- Reads and writes, with their retries, through a gos7 that reaches its controller.
use go_iot_client.Base.{
  ℕ, ◌<◌, ◌≤◌, ◌≡◌, refl, sym, ap, ◌∙◌, true, Option, none, some, List, length, All, inl, inr,
  Option-cases, arith,
}
use mathlib.Core.Path.{subst}
use go_iot_client.Base.Int.{ℤ, pos_part}
use go_iot_client.Base.Outcome.{NetError, Outcome, ok, err, panic, Meets}
use go_iot_client.Base.Words.{IsByte}
use go_iot_client.Core.{normalize}
use go_iot_client.Retry.Laws.{here, attempts_first_success}
use go_iot_client.Siemens.Gos7.{Gos7}
use go_iot_client.Siemens.Address.{Area, Addr}
use go_iot_client.Siemens.Client.{
  State, Call, close_locked, connected_by, open_locked, ensure_connected, then_op, once, sleep,
  with_retry,
}
use go_iot_client.Siemens.Client.Invariant.{IsConsistent}
use go_iot_client.Siemens.Api.{read_op, write_op, read_on, write_on, filled, written}

-- A gos7 that reaches its controller while `Works` holds: dialing succeeds, a write of bytes is stored, a
-- read fills the buffer with the memory.
pub record IsStore (G : Gos7) (Works : G.World → Type 0)
    (memory : G.World → Area → ℕ → ℕ → ℕ → List ℕ) : Type 0 where
  pub connects :
      (endpoint : List ℕ) (rack slot timeout : ℤ) (w : G.World)
      → Works w
      → Meets (λ _ w'. Works w') (λ _ _. ⊥) (G.connect endpoint rack slot timeout w)
  pub closes : (h : G.Handler) (w : G.World) → Works w → Works (G.close h w).1
  pub reads :
      (h : G.Handler) (area : Area) (db start size : ℕ) (buf : List ℕ) (w : G.World)
      → Works w
      → start < 65536
      → size ≤ 65535
      → length buf ≡ size
      → (G.read h area db start size buf w).0 ≡ (none, memory w area db start size)
  pub writes :
      (h : G.Handler) (area : Area) (db start : ℕ) (payload : List ℕ) (w : G.World)
      → Works w
      → start < 65536
      → length payload ≤ 65535
      → All IsByte payload
      → let (e, w') = G.write h area db start (length payload) payload w in
        (e ≡ none) × Works w' × (memory w' area db start (length payload) ≡ payload)

-- A call that meets a postcondition and reports no error returns.
Meets-ok :
    {S : Type 0} (P : Unit {0} → S → Type 0) (r : Outcome (Unit {0}) × S)
    → Meets P (λ _ _. ⊥) r
    → (s : S) × ((r ≡ (ok tt, s)) × P tt s)
Meets-ok P (ok a, s) h = (s, (refl, h))
Meets-ok P (err e, s) h = absurd h
Meets-ok P (panic, s) h = absurd h

module _ (G : Gos7) (Works : G.World → Type 0) (memory : G.World → Area → ℕ → ℕ → ℕ → List ℕ)
    (store : IsStore G Works memory) where
  -- Connected, with this handler.
  abbrev pub On : G.Handler → State G → Type 0
  On h s = (s.self.client ≡ some h) × (s.self.handler ≡ some h) × (s.self.is_connected ≡ true)

  abbrev pub Reached : State G → Type 0
  Reached s = ((h : G.Handler) × On h s) × Works s.world

  connected_by-Reached :
      (s : State G) (r : Outcome G.Handler × G.World)
      → Meets (λ _ w. Works w) (λ _ _. ⊥) r
      → Meets (λ _ s'. Reached s') (λ _ _. ⊥) (connected_by G s r)
  connected_by-Reached s (ok h, w) k = ((h, (refl, refl, refl)), k)
  connected_by-Reached s (err e, w) k = absurd k
  connected_by-Reached s (panic, w) k = absurd k

  close_locked-Works : (s : State G) → Works s.world → Works (close_locked G s).world
  unfolding close_locked
  close_locked-Works s w = elim (Option-cases s.self.handler) [
    | inl p ↦ rw p w
    | inr (h, p) ↦ rw p (store.closes h s.world w)
  ]

  open_locked-Reached :
      (s : State G) → Works s.world → Meets (λ _ s'. Reached s') (λ _ _. ⊥) (open_locked G s)
  unfolding open_locked
  open_locked-Reached s w =
      let s' = close_locked G s in
      connected_by-Reached s'
        (G.connect s'.self.endpoint s'.self.rack s'.self.slot s'.self.timeout s'.world)
        (store.connects s'.self.endpoint s'.self.rack s'.self.slot s'.self.timeout s'.world
          (close_locked-Works s w))

  ensure_connected-On : (h : G.Handler) (s : State G) → On h s → ensure_connected G s ≡ (ok tt, s)
  unfolding ensure_connected
  ensure_connected-On h s o = rw (o.0, o.1, o.2) refl

  ensure_connected-Reached :
      (s : State G)
      → IsConsistent s.self
      → Works s.world
      → Meets (λ _ s'. Reached s') (λ _ _. ⊥) (ensure_connected G s)
  unfolding ensure_connected
  ensure_connected-Reached s v w = elim (Option-cases s.self.handler) [
    | inl p ↦ ground (arith, open_locked-Reached s w)
    | inr (h, p) ↦
        let on : s.self.is_connected ≡ true = v.flag_tells.1 (λ e. ground arith) in
        rw (v.same_handler ∙ p, p, on) ((h, (refl, refl, refl)), w)
  ]

  -- An operation that succeeds on the connected client succeeds with its retries, at the first attempt.
  with_retry-first :
      (op : Call G (Unit {0})) (s s' : State G)
      → once G op s ≡ (ok tt, s')
      → with_retry G op s ≡ (ok tt, s')
  unfolding with_retry
  with_retry-first op s s' e =
      let retries = pos_part (normalize s.self.retry).max_retries in
      attempts_first_success (close_locked G) (sleep G) retries retries 0 (once G op) tt s' (here s)
        (omega arith) e

  written-ok :
      (s : State G) (r : Option NetError × G.World)
      → r.0 ≡ none
      → written G s r ≡ (ok tt, record s { world = r.1 })
  written-ok s (none, w) e = refl
  written-ok s (some x, w) e = absurd (ground (arith, e))

  filled-ok :
      (s : State G) (r : (Option NetError × List ℕ) × G.World) (bytes : List ℕ)
      → r.0 ≡ (none, bytes)
      → filled G s r ≡ (ok tt, record s { buf = bytes; world = r.1 })
  filled-ok s (x, w) bytes e =
      subst (λ y. filled G s (y, w) ≡ (ok tt, record s { buf = bytes; world = w })) (sym e) refl

  module _ (a : Addr) (fits : a.start < 65536) where
    -- The write operation on a connected client.
    write_op-stored :
        (payload : List ℕ) (h : G.Handler) (s : State G)
        → On h s
        → Works s.world
        → All IsByte payload
        → length payload ≤ 65535
        → let w' = (G.write h a.area a.db a.start (length payload) payload s.world).1 in
          write_op G a payload s ≡ (ok tt, record s { world = w' })
    write_op-stored payload h s o w bs small =
        ap (λ c. write_on G c a payload s) o.0
        ∙ written-ok s (G.write h a.area a.db a.start (length payload) payload s.world)
            (store.writes h a.area a.db a.start payload s.world w fits small bs).0

    pub write-Stored :
        (payload : List ℕ) (s : State G)
        → IsConsistent s.self
        → Works s.world
        → All IsByte payload
        → length payload ≤ 65535
        → Meets
            (λ _ s'. Reached s' × (memory s'.world a.area a.db a.start (length payload) ≡ payload))
            (λ _ _. ⊥)
            (with_retry G (write_op G a payload) s)
    write-Stored payload s v w bs small =
        let (s', reached) =
          Meets-ok (λ _ s'. Reached s') (ensure_connected G s) (ensure_connected-Reached s v w) in
        let h = reached.1.0.0 in
        let on = reached.1.0.1 in
        let stored =
          store.writes h a.area a.db a.start payload s'.world reached.1.1 fits small bs in
        let s'' = record s' {
          world = (G.write h a.area a.db a.start (length payload) payload s'.world).1;
        } in
        let first : once G (write_op G a payload) s ≡ (ok tt, s'') =
          unfold once in
          ap (then_op G (write_op G a payload)) reached.0
          ∙ write_op-stored payload h s' on reached.1.1 bs small in
        subst
          (Meets
            (λ _ t. Reached t × (memory t.world a.area a.db a.start (length payload) ≡ payload))
            (λ _ _. ⊥))
          (sym (with_retry-first (write_op G a payload) s s'' first))
          (((h, on), stored.1), stored.2)

    read_op-filled :
        (size : ℕ) (h : G.Handler) (s : State G)
        → On h s
        → Works s.world
        → size ≤ 65535
        → length s.buf ≡ size
        → let w' = (G.read h a.area a.db a.start size s.buf s.world).1 in
          read_op G a size s
          ≡ (ok tt, record s { buf = memory s.world a.area a.db a.start size; world = w' })
    read_op-filled size h s o w small l =
        ap (λ c. read_on G c a size s) o.0
        ∙ filled-ok s (G.read h a.area a.db a.start size s.buf s.world)
            (memory s.world a.area a.db a.start size)
            (store.reads h a.area a.db a.start size s.buf s.world w fits small l)

    pub read-Stored :
        (size : ℕ) (s : State G)
        → Reached s
        → size ≤ 65535
        → length s.buf ≡ size
        → Meets
            (λ _ s'. s'.buf ≡ memory s.world a.area a.db a.start size)
            (λ _ _. ⊥)
            (with_retry G (read_op G a size) s)
    read-Stored size s r small l =
        let h = r.0.0 in
        let on = r.0.1 in
        let s' = record s {
          buf = memory s.world a.area a.db a.start size;
          world = (G.read h a.area a.db a.start size s.buf s.world).1;
        } in
        let first : once G (read_op G a size) s ≡ (ok tt, s') =
          unfold once in
          ap (then_op G (read_op G a size)) (ensure_connected-On h s on)
          ∙ read_op-filled size h s on r.1 small l in
        subst (Meets (λ _ t. t.buf ≡ memory s.world a.area a.db a.start size) (λ _ _. ⊥))
          (sym (with_retry-first (read_op G a size) s s' first)) refl
