-- ===== src/Vcpu/Emulation/Laws.antt =====
-- What a served access leaves of the guest.
pub mod Arrays
pub mod Registers
use open_hypervisor.Base.{
  ℕ, suc, ◌+◌, ◌-◌, ◌*◌, ◌/◌, ◌%◌, ◌^◌, ◌≡◌, ◌≢◌, ◌≤◌, ◌<◌, ◌⊎◌, inl, inr, refl, sym, ap, ◌∙◌, Bool,
  true, false, not, ◌&&◌, ◌||◌, Option, none, some, List, [], ◌∷◌, bit_and, bit_or, ltb, leb, arith,
  ◌==◌, if◌then◌else◌, Option-cases, Bool-cases, all_from,
}
use open_hypervisor.Base.Bits.{bit_and_low}
use open_hypervisor.Context.{Ctx, IsCtx, load64, store64, update}
use open_hypervisor.Context.Rw
use open_hypervisor.Context.Controls
use open_hypervisor.Context.State
use open_hypervisor.Context.Laws.{Apart, load64-store64-Apart, load64-mark_dirty}
use open_hypervisor.Vcpu.Slot.{VcpuSlot, mark_slot_dirty}
use open_hypervisor.Vcpu.Environment.{Environment}
use open_hypervisor.Vcpu.Stage1.{ohv_translate_stage1, banked}
use open_hypervisor.Vcpu.Emulation.Nested.{Nv2Reg, k_nv2_regs, find_nv2, nv2_lookup}
use open_hypervisor.Vcpu.Emulation.Shadows.{with_entry, value_of, put_value}
use open_hypervisor.Vcpu.Emulation.Transfer.{
  source_of, put_reg, step_pc, transfer, transfer-Apart, transfer-pc, step-pc,
}
use open_hypervisor.Vcpu.Emulation.Dispatch.{
  Operands, operands_of, Target, target_of, machine_target, slot_target, late_target,
  is_gic_interface_reg, amxidr, handoff, context_word, clidr, ccsidr, count, frequency, timer,
  gic_interface, translate, maintenance, pstate_field, gl2, timer_fiq_ena, ctrr_entry, thread_word,
  apple_count, apple_word, unserved,
}
use open_hypervisor.Vcpu.Emulation.Service.{
  Surroundings, Outcome, serve, serve_timer, serve_gic_interface, serve_ctrr, serve_apple_word,
  serve_context_word, serve_translate, serve_handoff, service_nv2_access, timer_write, timer_read,
  mark_if, par_el1, csselr_el1, ready_gic_if, or_zero, declined, done, amxidr_value,
  selected_ccsidr, guest_count, par_of,
}

-- A word of the register blocks at the head of the page.
abbrev pub Low : ℕ → Type 0
Low b = b / 4 + 2 ≤ 0x350 / 4

-- Past that head, and not the dirty word.
abbrev pub is_clear : ℕ → Bool
is_clear off = leb 0x350 off && (leb (off + 8) 0xa00 || leb 0xa08 off)

-- Where the words of a target may lie.
abbrev pub is_high : Target → Bool
is_high (context_word off bit) = is_clear off
is_high _ = true

nv2_high :
    (rs : List Nv2Reg) (i enc : ℕ) (r : Nv2Reg)
    → all_from (λ _ (r : Nv2Reg). is_clear r.ctx_off) rs i ≡ true
    → find_nv2 rs enc ≡ some r
    → is_clear r.ctx_off ≡ true
unfolding find_nv2
nv2_high [] i enc r all found = ground arith
nv2_high (x ∷ rs) i enc r all found = ground (arith, nv2_high rs (suc i) enc r)

late_target-high : (o : Operands) → is_high (late_target o) ≡ true
unfolding late_target nv2_lookup
late_target-high o = elim (Option-cases (find_nv2 k_nv2_regs o.enc)) [
  | inl e ↦ ground arith
  | inr (r, e) ↦ ground (arith, nv2_high k_nv2_regs 0 o.enc r refl e)
]

slot_target-high : (o : Operands) → is_high (slot_target o) ≡ true
unfolding slot_target
slot_target-high o = ground (arith, late_target-high o)

machine_target-high : (o : Operands) → is_high (machine_target o) ≡ true
unfolding machine_target
machine_target-high o = ground (arith, slot_target-high o)

pub target_of-high : (o : Operands) → is_high (target_of o) ≡ true
unfolding target_of
target_of-high o = ground (arith, machine_target-high o)

pub mark-Low :
    (s : VcpuSlot) (bit b : ℕ) → Low b → load64 (mark_slot_dirty s bit).ctx b ≡ load64 s.ctx b
unfolding mark_slot_dirty
mark-Low s bit b low = ground (arith, load64-mark_dirty s.ctx bit b)

store-Low : (c : Ctx) (off v b : ℕ) → Low b → 0x350 ≤ off → load64 (store64 c off v) b ≡ load64 c b
store-Low c off v b low high = load64-store64-Apart c off b v (ground arith)

-- A general register or the program counter: away from what the access reads into.
abbrev pub Away : Operands → ℕ → Type 0
Away o b = (o.read ≡ false) ⊎ ((o.rt ≡ 31) ⊎ Apart (Rw.x o.rt) b)

timer_write-Low :
    (now op2 v b : ℕ) (physical : Bool) (s : VcpuSlot)
    → Low b
    → load64 (timer_write now physical op2 v s).ctx b ≡ load64 s.ctx b
unfolding timer_write load64 store64
timer_write-Low now op2 v b physical s low = ground arith

step_low : (s : VcpuSlot) (b : ℕ) → Apart Rw.pc b → load64 (step_pc s).ctx b ≡ load64 s.ctx b
unfolding step_pc
step_low s b apart = load64-store64-Apart s.ctx Rw.pc b (load64 s.ctx Rw.pc + 4) apart

-- A write of a word of the context, and its mark.
pub word-Low :
    (s : VcpuSlot) (off bit v b : ℕ)
    → Low b
    → 0x350 ≤ off
    → load64 (mark_if bit (record s { ctx = store64 s.ctx off v })).ctx b ≡ load64 s.ctx b
word-Low s off bit v b low high =
    let t : VcpuSlot = record s { ctx = store64 s.ctx off v } in
    ground (arith, mark-Low t bit b low, store-Low s.ctx off v b low high)

-- How an access ends: declined, a transfer with a general register, or only a step past the
-- instruction; what stands between leaves the words at the head of the page.
data Shape (o : Operands) (s : VcpuSlot) : Outcome → Type 0 where
  left_alone :
      (held : ℕ) (s1 : VcpuSlot)
      → ((b : ℕ) → Low b → load64 s1.ctx b ≡ load64 s.ctx b)
      → Shape o s (declined held s1)
  moved :
      (held v : ℕ) (put : ℕ → VcpuSlot) (s1 : VcpuSlot)
      → ((b : ℕ) → Low b → load64 (put (source_of s1 o.rt)).ctx b ≡ load64 s1.ctx b)
      → ((b : ℕ) → Low b → load64 s1.ctx b ≡ load64 s.ctx b)
      → Shape o s (done held (transfer o.read o.rt v put s1))
  stepped :
      (held : ℕ) (s1 : VcpuSlot)
      → ((b : ℕ) → Low b → load64 s1.ctx b ≡ load64 s.ctx b)
      → Shape o s (done held (step_pc s1))

Shape-Low :
    (o : Operands) (s : VcpuSlot) (out : Outcome) (b : ℕ)
    → Shape o s out
    → Low b
    → Apart Rw.pc b
    → Away o b
    → load64 out.slot.ctx b ≡ load64 s.ctx b
Shape-Low o s _ b (left_alone held s1 same) low apart away = same b low
Shape-Low o s _ b (moved held v put s1 keeps same) low apart away =
    transfer-Apart o.read o.rt v b put s1 (keeps b low) apart away ∙ same b low
Shape-Low o s _ b (stepped held s1 same) low apart away = step_low s1 b apart ∙ same b low

Shape-pc :
    (o : Operands) (s : VcpuSlot) (out : Outcome)
    → Shape o s out
    → o.rt ≤ 31
    → load64 out.slot.ctx Rw.pc
      ≡ (if out.served then (load64 s.ctx Rw.pc + 4) % 2 ^ 64 else load64 s.ctx Rw.pc)
Shape-pc o s _ (left_alone held s1 same) le = same Rw.pc (omega arith)
Shape-pc o s _ (moved held v put s1 keeps same) le =
    transfer-pc o.read o.rt v put s1 (keeps Rw.pc (omega arith)) le
    ∙ ap (λ (t : ℕ). (t + 4) % 2 ^ 64) (same Rw.pc (omega arith))
Shape-pc o s _ (stepped held s1 same) le =
    step-pc s1 ∙ ap (λ (t : ℕ). (t + 4) % 2 ^ 64) (same Rw.pc (omega arith))

module _ (e : Environment) (m : Surroundings) where
  timer-Shape :
      (o : Operands) (physical : Bool) (op2 held : ℕ) (s : VcpuSlot)
      → Shape o s (serve_timer e m o physical op2 held s)
  unfolding serve_timer
  timer-Shape o physical op2 held s =
      let s1 : VcpuSlot = if physical then record s { ctx = store64 s.ctx (banked 19) 0 } else s in
      let put : ℕ → VcpuSlot =
        λ v. mark_slot_dirty (timer_write m.now physical op2 v s1) State.sysregs in
      let first : (b : ℕ) → Low b → load64 s1.ctx b ≡ load64 s.ctx b =
        λ b low. ground (arith, store-Low s.ctx (banked 19) 0 b low) in
      let keeps : (b : ℕ) → Low b → load64 (put (source_of s1 o.rt)).ctx b ≡ load64 s1.ctx b =
        λ b low.
          mark-Low (timer_write m.now physical op2 (source_of s1 o.rt) s1) State.sysregs b low
          ∙ timer_write-Low m.now op2 (source_of s1 o.rt) b physical s1 low in
      elim (Bool-cases (ltb 2 op2)) [
        | inl big ↦ rw (big, serve_timer) (left_alone held s1 first)
        | inr small ↦
            rw (small, serve_timer)
              (moved held (timer_read m.now physical op2 s1) put s1 keeps first)
      ]

  gic_interface-Shape :
      (o : Operands) (held : ℕ) (s : VcpuSlot) → Shape o s (serve_gic_interface e m o held s)
  unfolding serve_gic_interface
  gic_interface-Shape o held s =
      let s1 = ready_gic_if s in
      let same : s1.ctx ≡ s.ctx = ground arith in
      let words : (b : ℕ) → Low b → load64 s1.ctx b ≡ load64 s.ctx b =
        λ b low. ap (λ (c : Ctx). load64 c b) same in
      elim (Option-cases (with_entry 48 s1.gic_if o.enc)) [
        | inl full ↦ rw (full, serve_gic_interface) (left_alone held s1 words)
        | inr (es, found) ↦
            let s2 : VcpuSlot = record s1 { gic_if = es } in
            rw (found, serve_gic_interface)
              (moved held (or_zero (value_of es o.enc))
                (λ v. record s2 { gic_if = put_value es o.enc v }) s2 (λ b low. refl) words)
      ]

  ctrr-Shape :
      (o : Operands) (sel : ℕ) (held : ℕ) (s : VcpuSlot) → Shape o s (serve_ctrr e m o sel held s)
  unfolding serve_ctrr
  ctrr-Shape o sel held s = elim (Option-cases (with_entry 6 s.ctrr sel)) [
    | inl full ↦ rw (full, serve_ctrr) (left_alone held s (λ b low. refl))
    | inr (es, found) ↦
        let s2 : VcpuSlot = record s { ctrr = es } in
        rw (found, serve_ctrr)
          (moved held (or_zero (value_of es sel)) (λ v. record s2 { ctrr = put_value es sel v }) s2
            (λ b low. refl) (λ b low. refl))
  ]

  apple_word-Shape :
      (o : Operands) (held : ℕ) (s : VcpuSlot) → Shape o s (serve_apple_word e m o held s)
  unfolding serve_apple_word
  apple_word-Shape o held s = elim (Option-cases (with_entry 96 s.apple_shadow o.enc)) [
    | inl full ↦ rw (full, serve_apple_word) (left_alone held s (λ b low. refl))
    | inr (es, found) ↦
        let s2 : VcpuSlot = record s { apple_shadow = es } in
        rw (found, serve_apple_word)
          (moved held (or_zero (value_of es o.enc))
            (λ v. record s2 { apple_shadow = put_value es o.enc v }) s2 (λ b low. refl)
            (λ b low. refl))
  ]

  serve-Shape :
      (o : Operands) (t : Target) (held : ℕ) (s : VcpuSlot)
      → is_high t ≡ true
      → Shape o s (serve e m o t held s)
  unfolding serve serve_context_word serve_translate serve_handoff
  serve-Shape o amxidr held s high =
      moved held (amxidr_value e m) (λ _. s) s (λ b low. refl) (λ b low. refl)
  serve-Shape o handoff held s high =
      let hcr = bit_or (load64 s.ctx Controls.hcr_el2) (2 ^ 42) in
      let s1 : VcpuSlot = record s { ctx = store64 s.ctx Controls.hcr_el2 hcr } in
      stepped held (record (mark_slot_dirty s1 State.controls) { guest_at_el2 = true })
        (λ b low.
          mark-Low s1 State.controls b low
          ∙ store-Low s.ctx Controls.hcr_el2 hcr b low (omega arith))
  serve-Shape o (context_word off bit) held s high =
      moved held (load64 s.ctx off) (λ v. mark_if bit (record s { ctx = store64 s.ctx off v })) s
        (λ b low. word-Low s off bit (source_of s o.rt) b low (ground (arith, high)))
        (λ b low. refl)
  serve-Shape o clidr held s high =
      moved held m.caps.clidr_el1 (λ _. s) s (λ b low. refl) (λ b low. refl)
  serve-Shape o ccsidr held s high =
      moved held (selected_ccsidr m.caps (load64 s.ctx csselr_el1)) (λ _. s) s (λ b low. refl)
        (λ b low. refl)
  serve-Shape o count held s high =
      moved held (guest_count m.now s) (λ _. s) s (λ b low. refl) (λ b low. refl)
  serve-Shape o frequency held s high =
      moved held m.cntfrq (λ _. s) s (λ b low. refl) (λ b low. refl)
  serve-Shape o (timer physical op2) held s high = timer-Shape o physical op2 held s
  serve-Shape o gic_interface held s high = gic_interface-Shape o held s
  serve-Shape o translate held s high =
      let par = par_of m s (source_of s o.rt) in
      let s1 : VcpuSlot = record s { ctx = store64 s.ctx par_el1 par } in
      stepped held (mark_slot_dirty s1 State.sysregs)
        (λ b low. mark-Low s1 State.sysregs b low ∙ store-Low s.ctx par_el1 par b low (omega arith))
  serve-Shape o maintenance held s high = stepped held s (λ b low. refl)
  serve-Shape o pstate_field held s high =
      moved (if o.read then held else source_of s o.rt) held (λ _. s) s (λ b low. refl)
        (λ b low. refl)
  serve-Shape o (gl2 i) held s high =
      moved held (s.gl2_bank i) (λ v. record s { gl2_bank = update s.gl2_bank i v }) s
        (λ b low. refl) (λ b low. refl)
  serve-Shape o timer_fiq_ena held s high =
      moved held s.vm_tmr_fiq_ena (λ v. record s { vm_tmr_fiq_ena = v }) s (λ b low. refl)
        (λ b low. refl)
  serve-Shape o (ctrr_entry sel) held s high = ctrr-Shape o sel held s
  serve-Shape o (thread_word i) held s high =
      moved held (s.ctx_trace i) (λ v. record s { ctx_trace = update s.ctx_trace i v }) s
        (λ b low. refl) (λ b low. refl)
  serve-Shape o apple_count held s high =
      moved held (guest_count m.now s) (λ _. s) s (λ b low. refl) (λ b low. refl)
  serve-Shape o apple_word held s high = apple_word-Shape o held s
  serve-Shape o unserved held s high = left_alone held s (λ b low. refl)

  pub operands_of-rt : (esr : ℕ) → (operands_of esr).rt ≤ 31
  unfolding operands_of
  operands_of-rt esr = omega (arith, bit_and_low 5 (esr / 2 ^ 5))

  -- An access that is carried out steps the guest past its instruction, four bytes on; one that is
  -- left to the virtual machine monitor leaves the guest at the instruction.
  pub service-pc :
      (s : VcpuSlot) (held esr : ℕ)
      → let out = service_nv2_access e m s held esr in
        load64 out.slot.ctx Rw.pc
        ≡ (if out.served then (load64 s.ctx Rw.pc + 4) % 2 ^ 64 else load64 s.ctx Rw.pc)
  unfolding service_nv2_access
  service-pc s held esr =
      let o = operands_of esr in
      Shape-pc o s (serve e m o (target_of o) held s)
        (serve-Shape o (target_of o) held s (target_of-high o)) (operands_of-rt esr)

  -- No access changes a general register, from X0 to the link register, but the one that a read
  -- names.
  pub service-registers :
      (s : VcpuSlot) (held esr n : ℕ)
      → n ≤ 30
      → ((operands_of esr).read ≡ false) ⊎ ((operands_of esr).rt ≢ n)
      → load64 (service_nv2_access e m s held esr).slot.ctx (Rw.x n) ≡ load64 s.ctx (Rw.x n)
  unfolding service_nv2_access
  service-registers s held esr n le other =
      let o = operands_of esr in
      let away : Away o (Rw.x n) = ground (arith, operands_of-rt esr) in
      Shape-Low o s (serve e m o (target_of o) held s) (Rw.x n)
        (serve-Shape o (target_of o) held s (target_of-high o)) (omega arith) (omega arith) away
