-- ===== src/Client/Retry.antt =====
-- rpcClientWithRetry of client.go. An attempt is a call of the inner client, a sleep changes the world
-- as passing time does.
pub mod Bounds
use go_conflux_sdk.Base.{ℕ, zero, suc, String, Option, none, some, Bool, ltb, if◌then◌else◌}
use go_conflux_sdk.Base.Int.{ℤ, pos, negsuc}
use go_conflux_sdk.Errors.{Error, wrapped}
use go_conflux_sdk.Result.{Result, ok, err, panic}
use go_conflux_sdk.Exec.{Exec, on_error}

-- `if r.interval > 0 { time.Sleep(r.interval) }`
pub pause : {W : Type 0} → (ℤ → W → W) → ℤ → W → W
pause sleep (pos zero) w = w
pause sleep (pos (suc n)) w = sleep (pos (suc n)) w
pause sleep (negsuc n) w = w

module _ {W A : Type 0} (sleep : ℤ → W → W) (interval : ℤ) (attempt : Exec W A) where
  -- The loop of Call: `remain` is what the variable holds when a round starts. It ends with the round
  -- that would make it negative.
  unfoldable pub call_loop : ℤ → Exec W A
  unfolding pause
  call_loop (pos (suc n)) w =
      on_error (attempt w) λ e w'. call_loop (pos n) (pause sleep interval w')
  call_loop (pos zero) w =
      on_error (attempt w) λ e w'. (err (wrapped "timeout when call %v with args %v" e), w')
  call_loop (negsuc n) w =
      on_error (attempt w) λ e w'. (err (wrapped "timeout when call %v with args %v" e), w')

  -- Call
  unfoldable pub retry_call : ℤ → Exec W A
  unfolding call_loop
  retry_call retry_count = call_loop retry_count

  -- The loop of BatchCall, where `remain` is one more than the number.
  pub batch_loop : ℕ → Exec W A
  unfolding pause
  batch_loop (suc n) w = on_error (attempt w) λ e w'. batch_loop n (pause sleep interval w')
  batch_loop zero w =
      on_error (attempt w) λ e w'. (err (wrapped "timeout when batch call %+v" e), w')

  after_first : ℤ → Error → Exec W A
  unfolding batch_loop
  after_first (pos (suc n)) e w = batch_loop n w
  after_first (pos zero) e w = (err e, w)
  after_first (negsuc n) e w = (err e, w)

  -- BatchCall
  unfoldable pub retry_batch_call : ℤ → Exec W A
  unfolding after_first
  retry_batch_call retry_count w = on_error (attempt w) (after_first retry_count)
