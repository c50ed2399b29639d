-- ===== src/Vcpu/Run/Nested/Served.antt =====
-- A guest hypervisor's access that is carried out (`service_nv2_access`, src/ohv_vcpu.cpp).
use open_hypervisor.Base.{
  ℕ, ◌+◌, ◌≡◌, ◌≤◌, refl, Bool, true, false, ◌||◌, some, List, arith, ltb, if◌then◌else◌, if_cases,
  all_from, suc, [], ◌∷◌, Option-cases, inl, inr, leb,
}
use open_hypervisor.Context.{load64, store64}
use open_hypervisor.Context.State
use open_hypervisor.Vcpu.Slot.{VcpuSlot, mark_slot_dirty}
use open_hypervisor.Vcpu.Environment.{Environment}
use open_hypervisor.Vcpu.Stage1.{banked}
use open_hypervisor.Vcpu.Emulation.Nested.{Nv2Reg, k_nv2_regs, find_nv2, nv2_lookup}
use open_hypervisor.Vcpu.Emulation.Transfer.{step_pc, transfer, source_of}
use open_hypervisor.Vcpu.Emulation.Dispatch.{
  Operands, Target, operands_of, target_of, machine_target, slot_target, late_target, amxidr,
  handoff, context_word, clidr, ccsidr, count, frequency, timer, gic_interface, translate,
  maintenance, pstate_field, gl2, timer_fiq_ena, ctrr_entry, thread_word, apple_count, apple_word,
  unserved,
}
use open_hypervisor.Vcpu.Emulation.Service.{
  Surroundings, Outcome, serve, serve_timer, serve_gic_interface, serve_ctrr, serve_apple_word,
  serve_context_word, serve_translate, serve_handoff, service_nv2_access, timer_write, timer_read,
  mark_if, amxidr_value, par_el1, par_of,
}
use open_hypervisor.Vcpu.Nesting.Laws.{is_nested}
use open_hypervisor.Context.{update}
use open_hypervisor.Vcpu.Emulation.Laws.{operands_of-rt}
use open_hypervisor.Vcpu.Emulation.Shadows.{with_entry, value_of, put_value}
use open_hypervisor.Vcpu.Emulation.Service.{
  ready_gic_if, or_zero, csselr_el1, selected_ccsidr, guest_count,
}
use open_hypervisor.Base.{Bool-cases}
use open_hypervisor.Vcpu.Nesting.{nv_on}
use open_hypervisor.Vcpu.Nesting.Laws.{nv_on_lem}
use open_hypervisor.Vcpu.Run.Nested.Words.{
  Steady, Steady-trans, Steady-nested, mark-Steady, store-Steady, step-Steady, transfer-Steady,
  mark_if-Steady, timer_write-Steady,
}

-- No access stores over HCR_EL2.
abbrev off_hcr : ℕ → Bool
off_hcr off = leb (off + 8) 0x920 || leb 0x928 off

abbrev is_off_hcr : Target → Bool
is_off_hcr (context_word off bit) = off_hcr off
is_off_hcr _ = true

found_off_hcr :
    (rs : List Nv2Reg) (i enc : ℕ) (r : Nv2Reg)
    → all_from (λ _ (r : Nv2Reg). off_hcr r.ctx_off) rs i ≡ true
    → find_nv2 rs enc ≡ some r
    → off_hcr r.ctx_off ≡ true
unfolding find_nv2
found_off_hcr [] i enc r all found = ground arith
found_off_hcr (x ∷ rs) i enc r all found = ground (arith, found_off_hcr rs (suc i) enc r)

late_off_hcr : (o : Operands) → is_off_hcr (late_target o) ≡ true
unfolding late_target nv2_lookup
late_off_hcr o = elim (Option-cases (find_nv2 k_nv2_regs o.enc)) [
  | inl e ↦ ground arith
  | inr (r, e) ↦ ground (arith, e, found_off_hcr k_nv2_regs 0 o.enc r refl e)
]

slot_off_hcr : (o : Operands) → is_off_hcr (slot_target o) ≡ true
unfolding slot_target
slot_off_hcr o = ground (arith, late_off_hcr o)

machine_off_hcr : (o : Operands) → is_off_hcr (machine_target o) ≡ true
unfolding machine_target
machine_off_hcr o = ground (arith, slot_off_hcr o)

target_off_hcr : (o : Operands) → is_off_hcr (target_of o) ≡ true
unfolding target_of
target_off_hcr o = ground (arith, machine_off_hcr o)

abbrev is_handoff : Target → Bool
is_handoff handoff = true
is_handoff _ = false

module _ (e : Environment) (m : Surroundings) where
  timer-Steady :
      (o : Operands) (physical : Bool) (op2 held : ℕ) (s : VcpuSlot)
      → o.rt ≤ 31
      → Steady s (serve_timer e m o physical op2 held s).slot
  unfolding serve_timer
  timer-Steady o physical op2 held s le =
      let s1 : VcpuSlot = if physical then record s { ctx = store64 s.ctx (banked 19) 0 } else s in
      let w : ℕ → VcpuSlot = λ v. timer_write m.now physical op2 v s1 in
      let put : ℕ → VcpuSlot = λ v. mark_slot_dirty (w v) State.sysregs in
      let v = source_of s1 o.rt in
      let first : Steady s s1 =
        if_cases (Steady s) physical _ _ (λ _. store-Steady s (banked 19) 0 (omega arith))
          (λ _. (refl, refl, refl)) in
      let keeps : Steady s1 (put v) =
        Steady-trans s1 (w v) (put v) (timer_write-Steady m.now op2 v physical s1)
          (mark-Steady (w v) State.sysregs) in
      let value = timer_read m.now physical op2 s1 in
      if_cases (λ (x : Outcome). Steady s x.slot) (ltb 2 op2) _ _ (λ _. first)
        (λ _.
          Steady-trans s s1 (transfer o.read o.rt value put s1) first
            (transfer-Steady o.read o.rt value put s1 le keeps))

  gic_interface-Steady :
      (o : Operands) (held : ℕ) (s : VcpuSlot)
      → o.rt ≤ 31
      → Steady s (serve_gic_interface e m o held s).slot
  unfolding serve_gic_interface
  gic_interface-Steady o held s le =
      let s1 = ready_gic_if s in
      let first : Steady s s1 = ground arith in
      elim (Option-cases (with_entry 48 s1.gic_if o.enc)) [
        | inl full ↦ ground (arith, full, first)
        | inr (es, found) ↦
            let s2 : VcpuSlot = record s1 { gic_if = es } in
            ground (
              arith,
              found,
              Steady-trans s s2
                  (transfer o.read o.rt (or_zero (value_of es o.enc))
                    (λ v. record s2 { gic_if = put_value es o.enc v }) s2)
                  first
                  (transfer-Steady o.read o.rt (or_zero (value_of es o.enc))
                    (λ v. record s2 { gic_if = put_value es o.enc v }) s2 le (refl, refl, refl)),
            )
      ]

  ctrr-Steady :
      (o : Operands) (sel held : ℕ) (s : VcpuSlot)
      → o.rt ≤ 31
      → Steady s (serve_ctrr e m o sel held s).slot
  unfolding serve_ctrr
  ctrr-Steady o sel held s le = elim (Option-cases (with_entry 6 s.ctrr sel)) [
    | inl full ↦ ground (arith, full)
    | inr (es, found) ↦
        let s2 : VcpuSlot = record s { ctrr = es } in
        ground (
          arith,
          found,
          transfer-Steady o.read o.rt (or_zero (value_of es sel))
              (λ v. record s2 { ctrr = put_value es sel v }) s2 le (refl, refl, refl),
        )
  ]

  apple_word-Steady :
      (o : Operands) (held : ℕ) (s : VcpuSlot)
      → o.rt ≤ 31
      → Steady s (serve_apple_word e m o held s).slot
  unfolding serve_apple_word
  apple_word-Steady o held s le = elim (Option-cases (with_entry 96 s.apple_shadow o.enc)) [
    | inl full ↦ ground (arith, full)
    | inr (es, found) ↦
        let s2 : VcpuSlot = record s { apple_shadow = es } in
        ground (
          arith,
          found,
          transfer-Steady o.read o.rt (or_zero (value_of es o.enc))
              (λ v. record s2 { apple_shadow = put_value es o.enc v }) s2 le (refl, refl, refl),
        )
  ]

  answered-Steady :
      (o : Operands) (v : ℕ) (s : VcpuSlot)
      → o.rt ≤ 31
      → Steady s (transfer o.read o.rt v (λ _. s) s)
  answered-Steady o v s le = transfer-Steady o.read o.rt v (λ _. s) s le (refl, refl, refl)

  -- A guest that the handoff makes believe itself at EL2 has NV.
  handoff-nested : (held : ℕ) (s : VcpuSlot) → is_nested (serve_handoff e m held s).slot ≡ true
  unfolding serve_handoff nv_on
  handoff-nested held s =
      let t : VcpuSlot = record (nv_on s) { guest_at_el2 = true } in
      let at : is_nested t ≡ true = ground (arith, nv_on_lem s) in
      Steady-nested t (step_pc t) (step-Steady t) at

  served-Steady :
      (o : Operands) (t : Target) (held : ℕ) (s : VcpuSlot)
      → is_off_hcr t ≡ true
      → o.rt ≤ 31
      → is_handoff t ≡ false
      → Steady s (serve e m o t held s).slot
  unfolding serve serve_context_word serve_translate
  served-Steady o amxidr held s off le other = answered-Steady o (amxidr_value e m) s le
  served-Steady o handoff held s off le other = absurd (ground arith)
  served-Steady o (context_word w bit) held s off le other =
      transfer-Steady o.read o.rt (load64 s.ctx w)
        (λ v. mark_if bit (record s { ctx = store64 s.ctx w v })) s le
        (mark_if-Steady s bit w (source_of s o.rt) (ground (arith, off)))
  served-Steady o clidr held s off le other = answered-Steady o m.caps.clidr_el1 s le
  served-Steady o ccsidr held s off le other =
      answered-Steady o (selected_ccsidr m.caps (load64 s.ctx csselr_el1)) s le
  served-Steady o count held s off le other = answered-Steady o (guest_count m.now s) s le
  served-Steady o frequency held s off le other = answered-Steady o m.cntfrq s le
  served-Steady o (timer physical op2) held s off le other = timer-Steady o physical op2 held s le
  served-Steady o gic_interface held s off le other = gic_interface-Steady o held s le
  served-Steady o translate held s off le other =
      let par = par_of m s (source_of s o.rt) in
      let s1 : VcpuSlot = record s { ctx = store64 s.ctx par_el1 par } in
      let s2 = mark_slot_dirty s1 State.sysregs in
      Steady-trans s s2 (step_pc s2)
        (Steady-trans s s1 s2 (store-Steady s par_el1 par (omega arith))
          (mark-Steady s1 State.sysregs))
        (step-Steady s2)
  served-Steady o maintenance held s off le other = step-Steady s
  served-Steady o pstate_field held s off le other = answered-Steady o held s le
  served-Steady o (gl2 i) held s off le other =
      transfer-Steady o.read o.rt (s.gl2_bank i)
        (λ v. record s { gl2_bank = update s.gl2_bank i v }) s le (refl, refl, refl)
  served-Steady o timer_fiq_ena held s off le other =
      transfer-Steady o.read o.rt s.vm_tmr_fiq_ena (λ v. record s { vm_tmr_fiq_ena = v }) s le
        (refl, refl, refl)
  served-Steady o (ctrr_entry sel) held s off le other = ctrr-Steady o sel held s le
  served-Steady o (thread_word i) held s off le other =
      transfer-Steady o.read o.rt (s.ctx_trace i)
        (λ v. record s { ctx_trace = update s.ctx_trace i v }) s le (refl, refl, refl)
  served-Steady o apple_count held s off le other = answered-Steady o (guest_count m.now s) s le
  served-Steady o apple_word held s off le other = apple_word-Steady o held s le
  served-Steady o unserved held s off le other = (refl, refl, refl)

  handed :
      (o : Operands) (t : Target) (held : ℕ) (s : VcpuSlot)
      → is_handoff t ≡ true
      → is_nested (serve e m o t held s).slot ≡ true
  unfolding serve
  handed o handoff held s is = handoff-nested held s
  handed o _ held s is = absurd (ground arith)

  serve-nested :
      (o : Operands) (t : Target) (held : ℕ) (s : VcpuSlot)
      → is_off_hcr t ≡ true
      → o.rt ≤ 31
      → is_nested s ≡ true
      → is_nested (serve e m o t held s).slot ≡ true
  unfolding serve
  serve-nested o t held s off le n = elim (Bool-cases (is_handoff t)) [
    | inl is ↦ handed o t held s is
    | inr other ↦
        Steady-nested s (serve e m o t held s).slot (served-Steady o t held s off le other) n
  ]

  pub service-nested :
      (s : VcpuSlot) (held esr : ℕ)
      → is_nested s ≡ true
      → is_nested (service_nv2_access e m s held esr).slot ≡ true
  unfolding service_nv2_access
  service-nested s held esr n =
      let o = operands_of esr in
      serve-nested o (target_of o) held s (target_off_hcr o) (operands_of-rt e m esr) n
