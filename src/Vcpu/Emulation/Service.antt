-- ===== src/Vcpu/Emulation/Service.antt =====
-- Carrying an access out (`service_nv2_access`, src/ohv_vcpu.cpp).
use open_hypervisor.Base.{
  ℕ, ◌+◌, ◌-◌, ◌*◌, ◌/◌, ◌%◌, ◌^◌, Bool, true, false, Option, none, some, List, [], ◌∷◌, bit_and,
  bit_or, ltb, ◌==◌, if◌then◌else◌,
}
use open_hypervisor.Context.{update, load64, store64}
use open_hypervisor.Context.Rw
use open_hypervisor.Context.Controls
use open_hypervisor.Context.State
use open_hypervisor.Host.{MapRecord}
use open_hypervisor.Vcpu.Slot.{VcpuSlot, mark_slot_dirty}
use open_hypervisor.Vcpu.Environment.{Environment}
use open_hypervisor.Caps.Block.{Capabilities}
use open_hypervisor.Vcpu.Stage1.{ohv_translate_stage1, par_fault, banked}
use open_hypervisor.Vcpu.Emulation.Shadows.{value_of, put_value, with_entry}
use open_hypervisor.Vcpu.Emulation.Transfer.{source_of, step_pc, transfer}
use open_hypervisor.Vcpu.Emulation.Dispatch.{
  Operands, operands_of, Target, target_of, amxidr, handoff, context_word, clidr, ccsidr, count,
  frequency, timer, gic_interface, translate, maintenance, pstate_field, gl2, timer_fiq_ena,
  ctrr_entry, thread_word, apple_count, apple_word, unserved,
}

-- What the code asks of its surroundings: the host's counter and its frequency, the capabilities that
-- were asked for once, host memory and the record of what is mapped.
pub record Surroundings : Type 0 where
  pub now : ℕ
  pub cntfrq : ℕ
  pub caps : Capabilities
  pub memory : ℕ → ℕ
  pub maps : List MapRecord

-- The slot, the static word of the PSTATE field, and whether the access was carried out.
pub record Outcome : Type 0 where
  pub slot : VcpuSlot
  pub held : ℕ
  pub served : Bool

abbrev pub done : ℕ → VcpuSlot → Outcome
done held s = record { slot = s; held = held; served = true }

abbrev pub declined : ℕ → VcpuSlot → Outcome
declined held s = record { slot = s; held = held; served = false }

abbrev pub hcr_nv : ℕ
hcr_nv = 2 ^ 42

abbrev pub shadow_cntp_ctl : ℕ
shadow_cntp_ctl = 30

abbrev pub par_el1 : ℕ
par_el1 = Rw.shared_sysregs + 6 * 8

abbrev pub csselr_el1 : ℕ
csselr_el1 = Rw.shared_sysregs + 7 * 8

abbrev pub mark_if : ℕ → VcpuSlot → VcpuSlot
mark_if bit s = if bit == 0 then s else mark_slot_dirty s bit

-- `mach_absolute_time() - virtual_timer_offset`.
unfoldable pub guest_count : ℕ → VcpuSlot → ℕ
guest_count now s = (now + 2 ^ 64 - load64 s.ctx Controls.virtual_timer_offset % 2 ^ 64) % 2 ^ 64

-- `(uint64_t)(int32_t)(uint32_t)v`.
unfoldable pub sign_extend32 : ℕ → ℕ
sign_extend32 v = let w = v % 2 ^ 32 in if ltb w (2 ^ 31) then w else w + (2 ^ 64 - 2 ^ 32)

-- The cache size register that CSSELR_EL1 selects.
unfoldable pub selected_ccsidr : Capabilities → ℕ → ℕ
selected_ccsidr caps sel =
    let level = bit_and (sel / 2) 7 in
    if bit_and sel 1 == 0 then caps.ccsidr_el1_data_or_unified level else caps.ccsidr_el1_inst level

-- The switch of the timer case: TVAL, CTL and CVAL, as read and as written.
unfoldable pub timer_read : ℕ → Bool → ℕ → VcpuSlot → ℕ
timer_read now physical op2 s =
    let cval = load64 s.ctx (if physical then banked 10 else banked 9) in
    let ctl = if physical then s.el2_shadow shadow_cntp_ctl else load64 s.ctx (banked 18) in
    if op2 == 0
    then (cval + 2 ^ 64 - now % 2 ^ 64) % 2 ^ 64
    else if op2 == 1
    then ctl
    else (cval + 2 ^ 64 - load64 s.ctx Controls.virtual_timer_offset % 2 ^ 64) % 2 ^ 64

unfoldable pub timer_write : ℕ → Bool → ℕ → ℕ → VcpuSlot → VcpuSlot
timer_write now physical op2 v s =
    let cval = if physical then banked 10 else banked 9 in
    let off = load64 s.ctx Controls.virtual_timer_offset in
    if op2 == 0
    then record s { ctx = store64 s.ctx cval ((now + sign_extend32 v) % 2 ^ 64) }
    else if op2 == 1
    then (if physical
        then record s { el2_shadow = update s.el2_shadow shadow_cntp_ctl v }
        else record s { ctx = store64 s.ctx (banked 18) v })
    else record s { ctx = store64 s.ctx cval ((v + off) % 2 ^ 64) }

-- The array of the interrupt controller's registers, with ICC_SRE_EL1 put there at first.
abbrev pub ready_gic_if : VcpuSlot → VcpuSlot
ready_gic_if s =
    if s.gic_if_ready then s else record s { gic_if = (0xc665, 7) ∷ []; gic_if_ready = true }

abbrev pub or_zero : Option ℕ → ℕ
or_zero none = 0
or_zero (some v) = v

-- What PAR_EL1 is to read; four rounds of the walk are enough.
unfoldable pub par_of : Surroundings → VcpuSlot → ℕ → ℕ
par_of m s va = elim (ohv_translate_stage1 m.memory m.maps 4 s.ctx va) [
  | none ↦ par_fault
  | some r ↦ r
]

module _ (e : Environment) (m : Surroundings) where
  -- The timer registers. The physical timer's own control word is never left armed.
  unfoldable pub serve_timer : Operands → Bool → ℕ → ℕ → VcpuSlot → Outcome
  serve_timer o physical op2 held s =
      let s1 : VcpuSlot = if physical then record s { ctx = store64 s.ctx (banked 19) 0 } else s in
      let put : ℕ → VcpuSlot =
        λ v. mark_slot_dirty (timer_write m.now physical op2 v s1) State.sysregs in
      if ltb 2 op2
      then declined held s1
      else done held (transfer o.read o.rt (timer_read m.now physical op2 s1) put s1)

  unfoldable pub serve_gic_interface : Operands → ℕ → VcpuSlot → Outcome
  serve_gic_interface o held s =
      let s1 = ready_gic_if s in
      elim (with_entry 48 s1.gic_if o.enc) [
        | none ↦ declined held s1
        | some es ↦
            let s2 : VcpuSlot = record s1 { gic_if = es } in
            done held (
              transfer o.read o.rt (or_zero (value_of es o.enc))
                (λ v. record s2 { gic_if = put_value es o.enc v }) s2)
      ]

  unfoldable pub serve_ctrr : Operands → ℕ → ℕ → VcpuSlot → Outcome
  serve_ctrr o sel held s = elim (with_entry 6 s.ctrr sel) [
    | none ↦ declined held s
    | some es ↦
        let s2 : VcpuSlot = record s { ctrr = es } in
        done held (
          transfer o.read o.rt (or_zero (value_of es sel))
            (λ v. record s2 { ctrr = put_value es sel v }) s2)
  ]

  unfoldable pub serve_apple_word : Operands → ℕ → VcpuSlot → Outcome
  serve_apple_word o held s = elim (with_entry 96 s.apple_shadow o.enc) [
    | none ↦ declined held s
    | some es ↦
        let s2 : VcpuSlot = record s { apple_shadow = es } in
        done held (
          transfer o.read o.rt (or_zero (value_of es o.enc))
            (λ v. record s2 { apple_shadow = put_value es o.enc v }) s2)
  ]

  unfoldable pub serve_context_word : Operands → ℕ → ℕ → ℕ → VcpuSlot → Outcome
  serve_context_word o off bit held s = done held (
      transfer o.read o.rt (load64 s.ctx off)
        (λ v. mark_if bit (record s { ctx = store64 s.ctx off v })) s)

  -- `AT`.
  unfoldable pub serve_translate : Operands → ℕ → VcpuSlot → Outcome
  serve_translate o held s =
      let par = par_of m s (source_of s o.rt) in
      done held
        (step_pc (mark_slot_dirty (record s { ctx = store64 s.ctx par_el1 par }) State.sysregs))

  unfoldable pub serve_handoff : ℕ → VcpuSlot → Outcome
  serve_handoff held s =
      let hcr = bit_or (load64 s.ctx Controls.hcr_el2) hcr_nv in
      let s1 =
        mark_slot_dirty (record s { ctx = store64 s.ctx Controls.hcr_el2 hcr }) State.controls in
      done held (step_pc (record s1 { guest_at_el2 = true }))

  -- A value that is only read: a write is stepped over, where it is not sent elsewhere before.
  abbrev pub answer : Operands → ℕ → ℕ → VcpuSlot → Outcome
  answer o v held s = done held (transfer o.read o.rt v (λ _. s) s)

  abbrev pub amxidr_value : ℕ
  amxidr_value = elim e.amxidr [ none ↦ 1 | some v ↦ v % 2 ^ 64 ]

  unfoldable pub serve : Operands → Target → ℕ → VcpuSlot → Outcome
  serve o amxidr held s = answer o amxidr_value held s
  serve o handoff held s = serve_handoff held s
  serve o (context_word off bit) held s = serve_context_word o off bit held s
  serve o clidr held s = answer o m.caps.clidr_el1 held s
  serve o ccsidr held s = answer o (selected_ccsidr m.caps (load64 s.ctx csselr_el1)) held s
  serve o count held s = answer o (guest_count m.now s) held s
  serve o frequency held s = answer o m.cntfrq held s
  serve o (timer physical op2) held s = serve_timer o physical op2 held s
  serve o gic_interface held s = serve_gic_interface o held s
  serve o translate held s = serve_translate o held s
  serve o maintenance held s = done held (step_pc s)
  serve o pstate_field held s =
      done (if o.read then held else source_of s o.rt) (transfer o.read o.rt held (λ _. s) s)
  serve o (gl2 i) held s =
      done held
        (transfer o.read o.rt (s.gl2_bank i) (λ v. record s { gl2_bank = update s.gl2_bank i v }) s)
  serve o timer_fiq_ena held s =
      done held (transfer o.read o.rt s.vm_tmr_fiq_ena (λ v. record s { vm_tmr_fiq_ena = v }) s)
  serve o (ctrr_entry sel) held s = serve_ctrr o sel held s
  serve o (thread_word i) held s = done held (
      transfer o.read o.rt (s.ctx_trace i) (λ v. record s { ctx_trace = update s.ctx_trace i v }) s)
  serve o apple_count held s = answer o (guest_count m.now s) held s
  serve o apple_word held s = serve_apple_word o held s
  serve o unserved held s = declined held s

  unfoldable pub service_nv2_access : VcpuSlot → ℕ → ℕ → Outcome
  service_nv2_access s held esr = let o = operands_of esr in serve o (target_of o) held s
