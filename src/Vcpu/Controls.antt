-- ===== src/Vcpu/Controls.antt =====
-- The control words of a vCPU that a caller may read and write: the numbered fields, the debug
-- traps and the virtual timer (`hv_vcpu_get_trap_debug_exceptions` to `hv_vcpu_set_vtimer_offset`,
-- `control_field_access`, src/ohv_vcpu.cpp).
pub mod Laws
use open_hypervisor.Base.{
  ℕ, ◌+◌, ◌*◌, ◌/◌, ◌%◌, ◌^◌, Bool, true, false, not, ◌&&◌, Option, none, some, List, [], ◌∷◌,
  bit_and, bit_or, get_elem?, leb, ◌==◌, if◌then◌else◌,
}
use open_hypervisor.Base.Bits.{not64}
use open_hypervisor.Context.{Ctx, load64, store64}
use open_hypervisor.Context.Rw
use open_hypervisor.Context.Controls
use open_hypervisor.Context.State
use open_hypervisor.Hv.{hv_success, hv_bad_argument, Result, ok, err}
use open_hypervisor.Host.{Host, owned_vcpu, with_owned, from_owned}
use open_hypervisor.Vcpu.Environment.{Environment}
use open_hypervisor.Vcpu.Slot.{VcpuSlot, mark_slot_dirty}

abbrev pub control_field_none : ℕ
control_field_none = 0xffff

-- `kControlFieldOffset`.
abbrev pub control_field_offset : List ℕ
control_field_offset =
    0x00 ∷ 0x10 ∷ 0x18 ∷ 0x20 ∷ control_field_none ∷ 0x28 ∷ 0x08 ∷ 0x70 ∷ 0x78 ∷ 0x80
    ∷ control_field_none ∷ 0x38 ∷ 0x40 ∷ 0x48 ∷ 0x50 ∷ 0x58 ∷ 0x60 ∷ 0xD0 ∷ []

-- The offset of a field from the start of the page, if the number names one.
unfoldable pub control_field : ℕ → Option ℕ
control_field f = elim (get_elem? control_field_offset f) [
  | none ↦ none
  | some off ↦ if off == control_field_none then none else some (Rw.controls + off)
]

-- `*word = v; mark_dirty(s->ctx, OHV_STATE_CONTROLS)`.
unfoldable pub store_control : VcpuSlot → ℕ → ℕ → VcpuSlot
store_control s off v = mark_slot_dirty (record s { ctx = store64 s.ctx off v }) State.controls

unfoldable pub get_control_field : Host → ℕ → ℕ → Bool → Result ℕ
get_control_field h id f out =
    from_owned h id out (λ s. elim (control_field f) [
      | none ↦ err hv_bad_argument
      | some off ↦ ok (load64 s.ctx off)
    ])

unfoldable pub set_control_field : Environment → Host → ℕ → ℕ → ℕ → Host × ℕ
set_control_field e h id f v = with_owned h id (λ s. elim (control_field f) [
  | none ↦ (s, hv_bad_argument)
  | some off ↦
      if f == 9 && not e.allow_apsts_write
      then (s, hv_success)
      else (store_control s off v, hv_success)
])

-- `on ? (*word | mask) : (*word & ~mask)`.
abbrev pub with_mask : ℕ → ℕ → Bool → ℕ
with_mask word mask on = if on then bit_or word mask else bit_and word (not64 mask)

unfoldable pub get_control_flag : Host → ℕ → ℕ → ℕ → Bool → Result Bool
get_control_flag h id off mask out =
    from_owned h id out (λ s. ok (not (bit_and (load64 s.ctx off) mask == 0)))

unfoldable pub set_control_flag : Host → ℕ → ℕ → ℕ → Bool → Host × ℕ
set_control_flag h id off mask on =
    with_owned h id (λ s. (store_control s off (with_mask (load64 s.ctx off) mask on), hv_success))

-- MDCR_EL2.TDE.
unfoldable pub hv_vcpu_get_trap_debug_exceptions : Host → ℕ → Bool → Result Bool
unfolding get_control_flag
hv_vcpu_get_trap_debug_exceptions h id out = get_control_flag h id Controls.mdcr_el2 (2 ^ 14) out

unfoldable pub hv_vcpu_set_trap_debug_exceptions : Host → ℕ → Bool → Host × ℕ
unfolding set_control_flag
hv_vcpu_set_trap_debug_exceptions h id on = set_control_flag h id Controls.mdcr_el2 (2 ^ 14) on

abbrev pub debug_reg_mask : ℕ
debug_reg_mask = 2 ^ 9 + 2 ^ 10 + 2 ^ 12

unfoldable pub hv_vcpu_get_trap_debug_reg_accesses : Host → ℕ → Bool → Result Bool
unfolding get_control_flag
hv_vcpu_get_trap_debug_reg_accesses h id out = get_control_flag h id Controls.mdcr_el2 (2 ^ 9) out

unfoldable pub hv_vcpu_set_trap_debug_reg_accesses : Host → ℕ → Bool → Host × ℕ
unfolding set_control_flag
hv_vcpu_set_trap_debug_reg_accesses h id on =
    set_control_flag h id Controls.mdcr_el2 debug_reg_mask on

abbrev pub timer_mask : ℕ
timer_mask = 2 ^ 0

unfoldable pub hv_vcpu_get_vtimer_mask : Host → ℕ → Bool → Result Bool
unfolding get_control_flag
hv_vcpu_get_vtimer_mask h id out = get_control_flag h id Rw.timer timer_mask out

unfoldable pub hv_vcpu_set_vtimer_mask : Host → ℕ → Bool → Host × ℕ
unfolding set_control_flag
hv_vcpu_set_vtimer_mask h id masked = set_control_flag h id Rw.timer timer_mask masked

unfoldable pub hv_vcpu_get_vtimer_offset : Host → ℕ → Bool → Result ℕ
hv_vcpu_get_vtimer_offset h id out =
    from_owned h id out (λ s. ok (load64 s.ctx Controls.virtual_timer_offset))

unfoldable pub hv_vcpu_set_vtimer_offset : Host → ℕ → ℕ → Host × ℕ
hv_vcpu_set_vtimer_offset h id off =
    with_owned h id (λ s. (store_control s Controls.virtual_timer_offset off, hv_success))

unfoldable pub hv_vcpu_get_exec_time : Host → ℕ → Bool → Result ℕ
hv_vcpu_get_exec_time h id out = from_owned h id out (λ s. ok (load64 s.ctx Rw.guest_ticks))

unfoldable pub hv_vcpu_get_wait_for_interrupt_time : Host → ℕ → Bool → Result ℕ
hv_vcpu_get_wait_for_interrupt_time h id out = from_owned h id out (λ s. ok s.wfi_ticks)

-- The pages themselves, through an out-parameter and as the answer.
unfoldable pub hv_vcpu_get_context : Host → ℕ → Bool → Result Ctx
hv_vcpu_get_context h id out = from_owned h id out (λ s. ok s.ctx)

unfoldable pub hv_vcpu_context : Host → ℕ → Option Ctx
hv_vcpu_context h id = elim (owned_vcpu h id) [ none ↦ none | some s ↦ some s.ctx ]

-- `sizeof(ohv_extregs_t) / 8`.
abbrev pub ext_regs : ℕ
ext_regs = 83

unfoldable pub hv_vcpu_get_ext_reg : Host → ℕ → ℕ → Bool → Result ℕ
hv_vcpu_get_ext_reg h id reg out = from_owned h id out (λ s.
    if leb ext_regs reg then err hv_bad_argument else ok (load64 s.ctx (Rw.extregs + reg * 8)))
