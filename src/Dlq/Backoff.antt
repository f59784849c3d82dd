-- ===== src/Dlq/Backoff.antt =====
-- `compute_backoff` of src/dlq/service.py, in microseconds.
use Prim.Native.Nat.pow
use native.Mathlib.Nat.{mul_assoc, add-zero, add-suc}
use omnisync.Base.{
  ℕ, suc, sym, subst, ◌+◌, ◌*◌, ◌^◌, ◌≤◌, ◌≡◌, ap, ◌∙◌, min, arith, Timestamp, second,
}
use omnisync.Config.{Settings}

unfoldable pub compute_backoff : Settings → ℕ → Timestamp
compute_backoff cfg attempts =
    min (cfg.dlq_retry_base_delay * 2 ^ attempts) cfg.dlq_retry_max_delay * second

doubled : (b n : ℕ) → b * 2 ^ suc n ≡ b * 2 ^ n + b * 2 ^ n
doubled b n = ap (λ p. b * p) (pow.suc 2 n) ∙ grind (arith, mul_assoc b (2 ^ n) 2)

module _ (cfg : Settings) where
  first_delay :
      compute_backoff cfg 0 ≡ min cfg.dlq_retry_base_delay cfg.dlq_retry_max_delay * second
  unfolding compute_backoff
  first_delay = ap (λ b. min b cfg.dlq_retry_max_delay * second) (omega (arith, pow.zero 2))

  next_delay :
      (n : ℕ)
      → compute_backoff cfg (suc n)
        ≡ min (2 * compute_backoff cfg n) (cfg.dlq_retry_max_delay * second)
  unfolding compute_backoff
  next_delay n = omega (arith, doubled cfg.dlq_retry_base_delay n)

  capped : (n : ℕ) → compute_backoff cfg n ≤ cfg.dlq_retry_max_delay * second
  unfolding compute_backoff
  capped n = omega arith

  grows : (n k : ℕ) → compute_backoff cfg n ≤ compute_backoff cfg (n + k)
  grows n ℕ.zero =
      subst (λ m. compute_backoff cfg n ≤ compute_backoff cfg m) (sym (add-zero n)) (omega arith)
  grows n (suc k) =
      subst (λ m. compute_backoff cfg n ≤ compute_backoff cfg m) (sym (add-suc n k))
        (omega (arith, grows n k, next_delay (n + k), capped (n + k)))

  -- The first retry waits for the base delay, each later one for twice the delay before it, all of
  -- them capped at the maximum; so no delay is shorter than an earlier one.
  pub compute_backoff_lem :
      (n k : ℕ)
      → (compute_backoff cfg 0 ≡ min cfg.dlq_retry_base_delay cfg.dlq_retry_max_delay * second)
        × (compute_backoff cfg (suc n)
            ≡ min (2 * compute_backoff cfg n) (cfg.dlq_retry_max_delay * second))
        × (compute_backoff cfg n ≤ cfg.dlq_retry_max_delay * second)
        × (compute_backoff cfg n ≤ compute_backoff cfg (n + k))
  compute_backoff_lem n k = (first_delay, next_delay n, capped n, grows n k)
