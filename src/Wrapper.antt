-- ===== src/Wrapper.antt =====
-- The C++ interface over the calls (include/openhyp/openhyp.hpp): a call that does not answer with
-- success throws `Error`, which is `err` with the code here.
pub mod Snapshot
pub mod Run
pub mod RunLoop
use open_hypervisor.Base.{ℕ, true, List, [], ◌∷◌, ◌==◌, if◌then◌else◌}
use open_hypervisor.Hv.{hv_success, Result, ok, err}
use open_hypervisor.Host.{Host}
use open_hypervisor.Vcpu.Registers.{hv_vcpu_get_reg, hv_vcpu_set_reg}

-- `check`.
abbrev pub check : ℕ → Result {0} Unit
check r = if r == hv_success then ok tt else err r

-- What follows a call that did not throw.
abbrev pub and_then {ℓ κ} : {A : Type ℓ} {B : Type κ} → Result A → (A → Result B) → Result B
and_then (ok a) f = f a
and_then (err r) f = err r

-- `Vcpu::reg` and `Vcpu::get_regs`.
abbrev pub reg : Host → ℕ → ℕ → Result ℕ
reg h id r = hv_vcpu_get_reg h id r true

unfoldable pub get_regs : Host → ℕ → List ℕ → Result (List ℕ)
get_regs h id [] = ok []
get_regs h id (r ∷ rs) =
    let rest = get_regs h id rs in and_then (reg h id r) (λ v. and_then rest (λ vs. ok (v ∷ vs)))

-- `Vcpu::set_regs`: the registers before the one that is refused are written.
unfoldable pub set_regs : Host → ℕ → List (ℕ × ℕ) → Host × Result {0} Unit
set_regs h id [] = (h, ok tt)
set_regs h id ((r, v) ∷ batch) =
    let (h1, code) = hv_vcpu_set_reg h id r v in
    let rest = set_regs h1 id batch in if code == hv_success then rest else (h1, err code)
