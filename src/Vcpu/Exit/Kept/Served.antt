-- ===== src/Vcpu/Exit/Kept/Served.antt =====
-- The same when a trapped register access is carried out (`service_nv2_access`, src/ohv_vcpu.cpp).
use open_hypervisor.Base.{ℕ, Bool, arith, ltb, if◌then◌else◌, if_cases}
use open_hypervisor.Context.{store64, load64}
use open_hypervisor.Context.State
use open_hypervisor.Vcpu.Slot.{VcpuSlot, mark_slot_dirty}
use open_hypervisor.Vcpu.Environment.{Environment}
use open_hypervisor.Vcpu.Stage1.{banked}
use open_hypervisor.Vcpu.Emulation.Transfer.{step_pc, put_reg, transfer, source_of}
use open_hypervisor.Vcpu.Emulation.Dispatch.{
  Operands, Target, operands_of, target_of, context_word, timer, gic_interface, ctrr_entry,
  apple_word,
}
use open_hypervisor.Vcpu.Emulation.Service.{
  Surroundings, Outcome, serve, serve_timer, serve_gic_interface, serve_ctrr, serve_apple_word,
  serve_context_word, serve_translate, serve_handoff, service_nv2_access, timer_write, timer_read,
  mark_if,
}
use open_hypervisor.Vcpu.Exit.Kept.Entry.{Kept, Kept-trans, mark-Kept}

-- A served access. What a register is written by keeps the slot as well.
transfer-Kept :
    (read : Bool) (rt v : ℕ) (put : ℕ → VcpuSlot) (s : VcpuSlot)
    → Kept s (put (source_of s rt))
    → Kept s (transfer read rt v put s)
unfolding transfer step_pc put_reg
transfer-Kept read rt v put s kept = ground arith

mark_if-Kept :
    (s : VcpuSlot) (bit off v : ℕ) → Kept s (mark_if bit (record s { ctx = store64 s.ctx off v }))
unfolding mark_slot_dirty
mark_if-Kept s bit off v = ground arith

timer_write-Kept :
    (now op2 v : ℕ) (physical : Bool) (s : VcpuSlot) → Kept s (timer_write now physical op2 v s)
unfolding timer_write
timer_write-Kept now op2 v physical s = ground arith

module _ (e : Environment) (m : Surroundings) where
  serve_timer-Kept :
      (o : Operands) (physical : Bool) (op2 held : ℕ) (s : VcpuSlot)
      → Kept s (serve_timer e m o physical op2 held s).slot
  unfolding serve_timer
  serve_timer-Kept o physical op2 held s =
      let s1 : VcpuSlot = if physical then record s { ctx = store64 s.ctx (banked 19) 0 } else s in
      let w : ℕ → VcpuSlot = λ v. timer_write m.now physical op2 v s1 in
      let put : ℕ → VcpuSlot = λ v. mark_slot_dirty (w v) State.sysregs in
      let v = source_of s1 o.rt in
      let first : Kept s s1 = ground arith in
      let keeps : Kept s1 (put v) =
        Kept-trans s1 (w v) (put v) (timer_write-Kept m.now op2 v physical s1)
          (mark-Kept (w v) State.sysregs) in
      let value = timer_read m.now physical op2 s1 in
      if_cases (λ (x : Outcome). Kept s x.slot) (ltb 2 op2) _ _ (λ _. first)
        (λ _.
          Kept-trans s s1 (transfer o.read o.rt value put s1) first
            (transfer-Kept o.read o.rt value put s1 keeps))

  gic_interface-Kept :
      (o : Operands) (held : ℕ) (s : VcpuSlot) → Kept s (serve_gic_interface e m o held s).slot
  unfolding serve_gic_interface transfer step_pc put_reg
  gic_interface-Kept o held s = ground arith

  ctrr-Kept :
      (o : Operands) (sel held : ℕ) (s : VcpuSlot) → Kept s (serve_ctrr e m o sel held s).slot
  unfolding serve_ctrr transfer step_pc put_reg
  ctrr-Kept o sel held s = ground arith

  apple_word-Kept :
      (o : Operands) (held : ℕ) (s : VcpuSlot) → Kept s (serve_apple_word e m o held s).slot
  unfolding serve_apple_word transfer step_pc put_reg
  apple_word-Kept o held s = ground arith

  pub serve-Kept :
      (o : Operands) (t : Target) (held : ℕ) (s : VcpuSlot) → Kept s (serve e m o t held s).slot
  unfolding serve serve_context_word serve_translate serve_handoff transfer step_pc put_reg
      mark_slot_dirty
  serve-Kept o (context_word off bit) held s =
      transfer-Kept o.read o.rt (load64 s.ctx off)
        (λ v. mark_if bit (record s { ctx = store64 s.ctx off v })) s
        (mark_if-Kept s bit off (source_of s o.rt))
  serve-Kept o (timer physical op2) held s = serve_timer-Kept o physical op2 held s
  serve-Kept o gic_interface held s = gic_interface-Kept o held s
  serve-Kept o (ctrr_entry sel) held s = ctrr-Kept o sel held s
  serve-Kept o apple_word held s = apple_word-Kept o held s
  serve-Kept o _ held s = ground arith

  pub service-Kept : (s : VcpuSlot) (held esr : ℕ) → Kept s (service_nv2_access e m s held esr).slot
  unfolding service_nv2_access
  service-Kept s held esr = let o = operands_of esr in serve-Kept o (target_of o) held s
