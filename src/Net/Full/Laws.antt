-- ===== src/Net/Full/Laws.antt =====
-- `io.ReadFull` ends, and fills its buffer exactly.
use go_iot_client.Base.{
  ℕ, zero, suc, ◌+◌, ◌-◌, ◌≤◌, ◌≡◌, inl, inr, List, [], ◌++◌, length, length-append, Option-cases,
  arith,
}
use go_iot_client.Base.Outcome.{Outcome, Meets}
use go_iot_client.Net.{Net, IsLawful}
use go_iot_client.Net.Full.{full_loop, read_full}

-- What a read of `n` bytes may return: exactly `n` bytes, or an error.
abbrev pub Full {ℓ} : {W : Type ℓ} → ℕ → Outcome (List ℕ) × W → Type 0
Full n r = Meets (λ xs _. length xs ≡ n) (λ _ _. Unit {0}) r

module _ (N : Net) (L : IsLawful N) (c : N.Conn) where
  full_loop-Full :
      (fuel missing : ℕ) (got : List ℕ) (w : N.World) (n : ℕ)
      → missing ≤ fuel
      → length got + missing ≡ n
      → Full n (full_loop N c fuel missing got w)
  unfolding full_loop
  full_loop-Full fuel zero got w n h e = omega arith
  full_loop-Full zero (suc missing) got w n h e = absurd (omega arith)
  full_loop-Full (suc fuel) (suc missing) got w n h e =
      elim (Option-cases (N.read c (suc missing) w).0.error) [
        | inl p ↦ ground (
          arith,
          full_loop-Full fuel (suc missing - length bytes) (got ++ bytes) w' n
              (omega (arith, L.read-progress c (suc missing) w (omega arith) p))
              (omega (arith, sum, fits)),
        )
        | inr (x, p) ↦ ground (arith, sum, fits)
      ]
    where
      bytes : List ℕ
      bytes = (N.read c (suc missing) w).0.bytes

      w' : N.World
      w' = (N.read c (suc missing) w).1

      fits : length bytes ≤ suc missing
      fits = L.read-fits c (suc missing) w

      sum : length (got ++ bytes) ≡ length got + length bytes
      sum = length-append got bytes

  pub read_full-Meets : (n : ℕ) (w : N.World) → Full n (read_full N c n w)
  unfolding read_full
  read_full-Meets n w = full_loop-Full n n [] w n (omega arith) (omega arith)
