-- ===== src/Vcpu/Emulation/Laws/Registers.antt =====
-- What the registers that are kept for a guest read after a write, and what an address translation
-- instruction answers.
use open_hypervisor.Base.{ℕ, ◌≡◌, ◌<◌, sym, ap, ◌∙◌, Bool, true, false, arith}
use open_hypervisor.Context.{IsCtx, load64, store64, update}
use open_hypervisor.Context.Rw
use open_hypervisor.Context.State
use open_hypervisor.Vcpu.Slot.{VcpuSlot}
use open_hypervisor.Vcpu.Environment.{Environment}
use open_hypervisor.Vcpu.Emulation.Transfer.{source_of, step_pc, transfer}
use open_hypervisor.Vcpu.Emulation.Dispatch.{
  Operands, operands_of, Target, target_of, amxidr, handoff, context_word, clidr, ccsidr, count,
  frequency, timer, gic_interface, translate, maintenance, pstate_field, gl2, timer_fiq_ena,
  ctrr_entry, thread_word, apple_count, apple_word, unserved,
}
use open_hypervisor.Vcpu.Emulation.Service.{
  Surroundings, serve, serve_context_word, service_nv2_access, mark_if,
}
use open_hypervisor.Vcpu.Emulation.Laws.{is_high, target_of-high}
use open_hypervisor.Vcpu.Emulation.Laws.Arrays.{
  source_of-lt, word_after, read_back, transfer_writes, ctrr_kept, apple_word_kept,
  gic_interface_kept,
}

-- The registers that the library keeps for the guest.
abbrev pub is_register : Target → Bool
is_register (context_word off bit) = true
is_register gic_interface = true
is_register pstate_field = true
is_register (gl2 i) = true
is_register timer_fiq_ena = true
is_register (ctrr_entry sel) = true
is_register (thread_word i) = true
is_register apple_word = true
is_register _ = false

module _ (e : Environment) (m : Surroundings) where
  -- One write and one read of a register.
  kept :
      (o o' : Operands) (t : Target) (held : ℕ) (s : VcpuSlot)
      → is_register t ≡ true
      → is_high t ≡ true
      → o.read ≡ false
      → o'.read ≡ true
      → o'.rt < 31
      → o'.enc ≡ o.enc
      → IsCtx s.ctx
      → (serve e m o t held s).served ≡ true
      → let out = serve e m o t held s in
        load64 (serve e m o' t out.held out.slot).slot.ctx (Rw.x o'.rt) ≡ source_of s o.rt
  unfolding serve serve_context_word transfer step_pc update source_of
  kept o o' (context_word off bit) held s reg high w r lt same cells served =
      let v = source_of s o.rt in
      let wrote =
        transfer_writes o.read o.rt (load64 s.ctx off)
          (λ v. mark_if bit (record s { ctx = store64 s.ctx off v })) s w in
      let out = (serve e m o (context_word off bit) held s).slot in
      read_back o'.read o'.rt (load64 out.ctx off) v
        (λ v. mark_if bit (record out { ctx = store64 out.ctx off v })) out r lt
        (ap (λ (t : VcpuSlot). load64 t.ctx off) wrote
          ∙ word_after s off bit v high (source_of-lt s o.rt cells))
        (source_of-lt s o.rt cells)
  kept o o' (ctrr_entry sel) held s reg high w r lt same cells served =
      ctrr_kept e m o o' sel held s w r lt same cells served
  kept o o' apple_word held s reg high w r lt same cells served =
      apple_word_kept e m o o' held s w r lt same cells served
  kept o o' gic_interface held s reg high w r lt same cells served =
      gic_interface_kept e m o o' held s w r lt same cells served
  kept o o' (gl2 i) held s reg high w r lt same cells served =
      let out = (serve e m o (gl2 i) held s).slot in
      read_back o'.read o'.rt (out.gl2_bank i) (source_of s o.rt)
        (λ v. record out { gl2_bank = update out.gl2_bank i v }) out r lt (ground (arith, w))
        (source_of-lt s o.rt cells)
  kept o o' (thread_word i) held s reg high w r lt same cells served =
      let out = (serve e m o (thread_word i) held s).slot in
      read_back o'.read o'.rt (out.ctx_trace i) (source_of s o.rt)
        (λ v. record out { ctx_trace = update out.ctx_trace i v }) out r lt (ground (arith, w))
        (source_of-lt s o.rt cells)
  kept o o' timer_fiq_ena held s reg high w r lt same cells served =
      let out = (serve e m o timer_fiq_ena held s).slot in
      read_back o'.read o'.rt out.vm_tmr_fiq_ena (source_of s o.rt)
        (λ v. record out { vm_tmr_fiq_ena = v }) out r lt (ground (arith, w))
        (source_of-lt s o.rt cells)
  kept o o' pstate_field held s reg high w r lt same cells served =
      let out = (serve e m o pstate_field held s).slot in
      read_back o'.read o'.rt (serve e m o pstate_field held s).held (source_of s o.rt) (λ v. out)
        out r lt (ground (arith, w)) (source_of-lt s o.rt cells)
  kept o o' amxidr held s reg high w r lt same cells served = absurd (ground (arith, reg))
  kept o o' handoff held s reg high w r lt same cells served = absurd (ground (arith, reg))
  kept o o' clidr held s reg high w r lt same cells served = absurd (ground (arith, reg))
  kept o o' ccsidr held s reg high w r lt same cells served = absurd (ground (arith, reg))
  kept o o' count held s reg high w r lt same cells served = absurd (ground (arith, reg))
  kept o o' frequency held s reg high w r lt same cells served = absurd (ground (arith, reg))
  kept o o' (timer physical op2) held s reg high w r lt same cells served =
      absurd (ground (arith, reg))
  kept o o' translate held s reg high w r lt same cells served = absurd (ground (arith, reg))
  kept o o' maintenance held s reg high w r lt same cells served = absurd (ground (arith, reg))
  kept o o' apple_count held s reg high w r lt same cells served = absurd (ground (arith, reg))
  kept o o' unserved held s reg high w r lt same cells served = absurd (ground (arith, reg))

  -- A register that the library keeps for the guest reads back what the guest wrote: after a write
  -- of it that is carried out, a read of the same register into X0 to X30 puts the written general
  -- register's value there, whatever the two instructions' general registers are. The pages hold
  -- 32-bit cells.
  pub service_kept :
      (s : VcpuSlot) (held esr esr' : ℕ) (t : Target)
      → IsCtx s.ctx
      → target_of (operands_of esr) ≡ t
      → target_of (operands_of esr') ≡ t
      → is_register t ≡ true
      → (operands_of esr').enc ≡ (operands_of esr).enc
      → (operands_of esr).read ≡ false
      → (operands_of esr').read ≡ true
      → (operands_of esr').rt < 31
      → (service_nv2_access e m s held esr).served ≡ true
      → let out = service_nv2_access e m s held esr in
        load64 (service_nv2_access e m out.slot out.held esr').slot.ctx (Rw.x (operands_of esr').rt)
        ≡ source_of s (operands_of esr).rt
  unfolding service_nv2_access
  service_kept s held esr esr' t cells to to' reg same w r lt served =
      let o = operands_of esr in
      let o' = operands_of esr' in
      let high : is_high t ≡ true = rw (← to) (target_of-high o) in
      let served' : (serve e m o t held s).served ≡ true =
        ap (λ (u : Target). (serve e m o u held s).served) (sym to) ∙ served in
      rw to (rw to' (kept o o' t held s reg high w r lt same cells served'))
