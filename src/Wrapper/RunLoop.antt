-- ===== src/Wrapper/RunLoop.antt =====
-- `Vcpu::run_loop` (include/openhyp/openhyp.hpp), over `Vcpu::run`.
pub mod Laws
use open_hypervisor.Base.{ℕ, zero, suc, Option, none, some, Bool, ◌%◌, ◌^◌, if◌then◌else◌}
use open_hypervisor.Hv.{Result, ok, err}
use open_hypervisor.Wrapper.Run.{ExitInfo}

-- The state is whatever `run` and the handler work on. `run` is `none` where it does not come back;
-- the handler answers true for `Action::Stop`.
module _ {S : Type 0} (run : S → Option (S × Result ExitInfo))
    (handler : S → ExitInfo → S × Bool) where
  -- What follows a run: `n` exits were processed before it, and `rest` goes on.
  unfoldable pub process :
      ℕ → (S → Option (S × Result ℕ)) → Option (S × Result ExitInfo) → Option (S × Result ℕ)
  process n rest none = none
  process n rest (some (s, err r)) = some (s, err r)
  process n rest (some (s, ok e)) =
      let (s', stop) = handler s e in
      let more = rest s' in if stop then some (s', ok (suc n)) else more

  -- `left` is how often the test `n++ < max_iters` is still true.
  unfoldable pub loop_from : ℕ → ℕ → S → Option (S × Result ℕ)
  loop_from zero n s = some (s, ok (suc n % 2 ^ 64))
  loop_from (suc left) n s = process n (loop_from left (suc n)) (run s)

  unfoldable pub run_loop : S → ℕ → Option (S × Result ℕ)
  run_loop s max_iters = loop_from max_iters 0 s
