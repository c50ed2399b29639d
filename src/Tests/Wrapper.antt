-- ===== src/Tests/Wrapper.antt =====
-- Runs of the C++ interface.
use open_hypervisor.Base.{
  ℕ, ◌%◌, ◌^◌, suc, zero, ◌≤◌, ◌≡◌, ◌⊎◌, inr, refl, Bool, true, false, Option, some, List, [], ◌∷◌,
  arith, ◌==◌, if◌then◌else◌,
}
use open_hypervisor.Context.{load32, load64}
use open_hypervisor.Hv.{Result, ok}
use open_hypervisor.Host.{Host, find_vcpu, owned_vcpu}
use open_hypervisor.Tests.Fixtures.{slot, running, blank-IsCtx}
use open_hypervisor.Vcpu.Registers.{reg_offset, read_reg, hv_vcpu_get_reg}
use open_hypervisor.Wrapper.{get_regs}
use open_hypervisor.Wrapper.Snapshot.{General, read_general, restore_general}
use open_hypervisor.Wrapper.Snapshot.Restored.{restore-read_general}
use open_hypervisor.Wrapper.Run.{ExitInfo}
use open_hypervisor.Wrapper.RunLoop.{process, loop_from, run_loop}
use open_hypervisor.Wrapper.RunLoop.Laws.{Processed, run_loop_lem}

-- A vCPU that has gone on since the snapshot: other registers, and flags that say EL0.
abbrev later : Host
later = record running {
  vcpus = λ i. if i == 0 then record slot { ctx = λ j. j } else running.vcpus i;
}

-- All registers were zero.
abbrev zeros : ℕ → List ℕ
zeros zero = []
zeros (suc n) = 0 ∷ zeros n

abbrev saved : General
saved = record { gpr = zeros 32; cpsr = 0; fpcr = 0; fpsr = 0 }

restore-read_general_example :
    let (h2, done) = restore_general later 0 saved in
    (done ≡ ok tt) × (hv_vcpu_get_reg h2 0 7 true ≡ hv_vcpu_get_reg running 0 7 true)
unfolding owned_vcpu find_vcpu read_general get_regs hv_vcpu_get_reg read_reg reg_offset load32
    load64
restore-read_general_example =
    restore-read_general running 0 slot refl blank-IsCtx later (record slot { ctx = λ j. j }) saved
      7 refl refl (inr ((λ e. ground arith), (λ e. ground arith))) (ground arith)

-- A guest whose every exit is the same, counted by the state, and a handler that never stops.
abbrev info : ExitInfo
info = record { reason = 1; syndrome = 0; virtual_address = 0; physical_address = 0 }

abbrev counting : ℕ → Option (ℕ × Result ExitInfo)
counting n = some (suc n, ok info)

abbrev going_on : ℕ → ExitInfo → ℕ × Bool
going_on n e = (n, false)

-- Two exits are processed and the answer is three.
run_loop_lem_example :
    (p : ℕ) × (stop : Bool) × Processed counting going_on 0 p stop 2
    × (((stop ≡ true) × (3 ≡ p) × (p ≤ 2)) ⊎ ((stop ≡ false) × (3 ≡ suc p % 2 ^ 64) × (p ≡ 2)))
unfolding run_loop loop_from process
run_loop_lem_example = run_loop_lem counting going_on 2 3 0 2 refl
