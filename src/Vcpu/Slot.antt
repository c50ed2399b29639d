-- ===== src/Vcpu/Slot.antt =====
-- `VcpuSlot` (src/ohv_internal.h): one entry of the table of vCPUs. Left out are the fields that
-- only feed a trace or that no modelled call reads, and the owner. `pub_exit` is the four fields
-- `exit_reason`, `exit_syndrome`, `exit_virtual_address` and `exit_physical_address`.
use open_hypervisor.Base.{ℕ, Bool, false, List, [], if◌then◌else◌}
use open_hypervisor.Context.{Ctx, mark_dirty as mark_dirty_ctx}

-- `mapped` is `ctx != nullptr`; `ctx` is what the pages hold. Arrays are functions of the index,
-- and the counted arrays of a register's number and value are lists of their used part.
pub record VcpuSlot : Type 0 where
  pub used : Bool
  pub mapped : Bool
  pub ctx : Ctx
  pub id : ℕ
  pub run_count : ℕ
  pub wfi_ticks : ℕ
  pub exit_reason : ℕ
  pub exit_syndrome : ℕ
  pub exit_virtual_address : ℕ
  pub exit_physical_address : ℕ
  pub exit_requested : Bool
  pub el2_shadow : ℕ → ℕ
  pub nv_off_for_geret : Bool
  pub vm_tmr_fiq_ena : ℕ
  pub vmm_fiq : Bool
  pub timer_fiq : Bool
  pub timer_fired_v : Bool
  pub timer_fired_p : Bool
  pub sptm_base : ℕ
  pub vmm_irq : Bool
  pub in_wfx : Bool
  pub id_regs : ℕ → ℕ
  pub id_regs_loaded : Bool
  pub guest_at_el2 : Bool
  pub gl2_bank : ℕ → ℕ
  pub ctrr : List (ℕ × ℕ)
  pub ctx_trace : ℕ → ℕ
  pub apple_shadow : List (ℕ × ℕ)
  pub gic_if : List (ℕ × ℕ)
  pub gic_if_ready : Bool

-- `new (&s) VcpuSlot()`.
abbrev pub fresh_slot : VcpuSlot
fresh_slot = record {
  used = false;
  mapped = false;
  ctx = λ _. 0;
  id = 0;
  run_count = 0;
  wfi_ticks = 0;
  exit_reason = 0;
  exit_syndrome = 0;
  exit_virtual_address = 0;
  exit_physical_address = 0;
  exit_requested = false;
  el2_shadow = λ _. 0;
  nv_off_for_geret = false;
  vm_tmr_fiq_ena = 3;
  vmm_fiq = false;
  timer_fiq = false;
  timer_fired_v = false;
  timer_fired_p = false;
  sptm_base = 0;
  vmm_irq = false;
  in_wfx = false;
  id_regs = λ _. 0;
  id_regs_loaded = false;
  guest_at_el2 = false;
  gl2_bank = λ _. 0;
  ctrr = [];
  ctx_trace = λ _. 0;
  apple_shadow = [];
  gic_if = [];
  gic_if_ready = false;
}

-- `mark_dirty(s->ctx, bit)`.
unfoldable pub mark_slot_dirty : VcpuSlot → ℕ → VcpuSlot
mark_slot_dirty s bit = if s.mapped then record s { ctx = mark_dirty_ctx s.ctx bit } else s
