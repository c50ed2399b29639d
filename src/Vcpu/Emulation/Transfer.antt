-- ===== src/Vcpu/Emulation/Transfer.antt =====
-- What every case of `service_nv2_access` does with the guest's general registers (src/ohv_vcpu.cpp).
use open_hypervisor.Base.{
  ℕ, ◌+◌, ◌%◌, ◌^◌, ◌≡◌, ◌≤◌, ◌<◌, ◌⊎◌, Bool, true, false, arith, ◌==◌, if◌then◌else◌,
}
use open_hypervisor.Context.{Ctx, load64, store64}
use open_hypervisor.Context.Rw
use open_hypervisor.Context.Laws.{load64-store64, load64-store64-Apart, Apart}
use open_hypervisor.Vcpu.Slot.{VcpuSlot}

-- `(rt == 31) ? 0 : rw->regs.x[rt]`.
unfoldable pub source_of : VcpuSlot → ℕ → ℕ
source_of s rt = if rt == 31 then 0 else load64 s.ctx (Rw.x rt)

-- `if (rt != 31) rw->regs.x[rt] = v`.
unfoldable pub put_reg : VcpuSlot → ℕ → ℕ → VcpuSlot
put_reg s rt v = if rt == 31 then s else record s { ctx = store64 s.ctx (Rw.x rt) v }

-- `rw->regs.pc += 4`.
unfoldable pub step_pc : VcpuSlot → VcpuSlot
step_pc s = record s { ctx = store64 s.ctx Rw.pc (load64 s.ctx Rw.pc + 4) }

-- A register that is read as `v` and written by `put`.
unfoldable pub transfer : Bool → ℕ → ℕ → (ℕ → VcpuSlot) → VcpuSlot → VcpuSlot
transfer read rt v put s = if read then step_pc (put_reg s rt v) else step_pc (put (source_of s rt))

pub load64-store64_wrapped : (c : Ctx) (off v : ℕ) → load64 (store64 c off v) off ≡ v % 2 ^ 64
unfolding load64 store64
load64-store64_wrapped c off v = ground arith

-- What a transfer leaves of a word that is neither the program counter nor the register read into.
pub transfer-Apart :
    (read : Bool) (rt v b : ℕ) (put : ℕ → VcpuSlot) (s : VcpuSlot)
    → load64 (put (source_of s rt)).ctx b ≡ load64 s.ctx b
    → Apart Rw.pc b
    → (read ≡ false) ⊎ ((rt ≡ 31) ⊎ Apart (Rw.x rt) b)
    → load64 (transfer read rt v put s).ctx b ≡ load64 s.ctx b
unfolding transfer step_pc put_reg
transfer-Apart read rt v b put s keeps apart away =
    let t = put (source_of s rt) in
    let c = store64 s.ctx (Rw.x rt) v in
    ground (
      arith,
      load64-store64-Apart t.ctx Rw.pc b (load64 t.ctx Rw.pc + 4) apart,
      load64-store64-Apart s.ctx Rw.pc b (load64 s.ctx Rw.pc + 4) apart,
      load64-store64-Apart c Rw.pc b (load64 c Rw.pc + 4) apart,
      load64-store64-Apart s.ctx (Rw.x rt) b v,
    )

pub step-pc : (s : VcpuSlot) → load64 (step_pc s).ctx Rw.pc ≡ (load64 s.ctx Rw.pc + 4) % 2 ^ 64
unfolding step_pc
step-pc s = load64-store64_wrapped s.ctx Rw.pc (load64 s.ctx Rw.pc + 4)

-- The program counter is past the instruction.
pub transfer-pc :
    (read : Bool) (rt v : ℕ) (put : ℕ → VcpuSlot) (s : VcpuSlot)
    → load64 (put (source_of s rt)).ctx Rw.pc ≡ load64 s.ctx Rw.pc
    → rt ≤ 31
    → load64 (transfer read rt v put s).ctx Rw.pc ≡ (load64 s.ctx Rw.pc + 4) % 2 ^ 64
unfolding transfer step_pc put_reg
transfer-pc read rt v put s keeps le =
    let t = put (source_of s rt) in
    let c = store64 s.ctx (Rw.x rt) v in
    ground (
      arith,
      load64-store64_wrapped t.ctx Rw.pc (load64 t.ctx Rw.pc + 4),
      load64-store64_wrapped s.ctx Rw.pc (load64 s.ctx Rw.pc + 4),
      load64-store64_wrapped c Rw.pc (load64 c Rw.pc + 4),
      load64-store64-Apart s.ctx (Rw.x rt) Rw.pc v,
    )

-- A read puts the value into its register.
pub transfer_read :
    (rt v : ℕ) (put : ℕ → VcpuSlot) (s : VcpuSlot)
    → rt < 31
    → v < 2 ^ 64
    → load64 (transfer true rt v put s).ctx (Rw.x rt) ≡ v
unfolding transfer step_pc put_reg
transfer_read rt v put s lt small =
    let c = store64 s.ctx (Rw.x rt) v in
    ground (
      arith,
      load64-store64-Apart c Rw.pc (Rw.x rt) (load64 c Rw.pc + 4),
      load64-store64 s.ctx (Rw.x rt) v small,
    )
