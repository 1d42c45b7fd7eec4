-- ===== src/Core.antt =====
-- core/result.go and core/retry.go: what a call reports, and how often it tries.
pub mod Report
use go_iot_client.Base.{ℕ, Bool, true, false, Option, none, some, if◌then◌else◌}
use go_iot_client.Base.Int.{ℤ, pos, is_positive, is_negative}
use go_iot_client.Base.Outcome.{Error}

-- `Result`. `err` is `none` where `Err` is empty. No client sets `Request` or `Response`, and the
-- clock readings `InitialTime` and `TimeConsuming` are left out.
pub record Result : Type 0 where
  pub is_succeed : Bool
  pub err_msg : Option Error
  pub err_code : ℕ

-- `ResultT[T]`
pub record ResultT {ℓ} (A : Type ℓ) : Type ℓ where
  pub result : Result
  pub open result use *
  pub value : A

abbrev pub new_result : Result
new_result = record { is_succeed = true; err_msg = none; err_code = 0 }

-- `r.IsSucceed = false; r.Err = err.Error()`
abbrev pub fail : Error → Result → Result
fail e r = record r { is_succeed = false; err_msg = some e }

pub record RetryPolicy : Type 0 where
  pub max_retries : ℤ
  pub retry_delay : ℤ

-- 100 * time.Millisecond
abbrev pub default_delay : ℤ
default_delay = pos 100_000_000

unfoldable pub normalize : RetryPolicy → RetryPolicy
normalize p = record {
  max_retries = if is_negative p.max_retries then pos 0 else p.max_retries;
  retry_delay = if is_positive p.retry_delay then p.retry_delay else default_delay;
}
