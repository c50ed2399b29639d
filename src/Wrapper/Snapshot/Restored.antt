-- ===== src/Wrapper/Snapshot/Restored.antt =====
-- `Vcpu::restore` after `Vcpu::snapshot` (include/openhyp/openhyp.hpp).
use open_hypervisor.Base.{
  ℕ, zero, suc, ◌+◌, ◌%◌, ◌^◌, ◌≤◌, ◌<◌, ◌≡◌, ◌≢◌, ◌⊎◌, inl, inr, refl, sym, ap, ◌∙◌, Bool, true,
  false, Option, none, some, List, [], ◌∷◌, ◌++◌, arith, bit_and, ltb, ◌==◌, if_cases, Bool-cases,
}
use open_hypervisor.Context.{Ctx, IsCtx}
use open_hypervisor.Hv.{Result, ok}
use open_hypervisor.Host.{Host, owned_vcpu}
use open_hypervisor.Vcpu.Slot.{VcpuSlot}
use open_hypervisor.Vcpu.Registers.{
  guest_pstate, reg_cpsr, reg_fpcr, reg_fpsr, read_reg, hv_vcpu_get_reg,
}
use open_hypervisor.Vcpu.Registers.Laws.{written}
use open_hypervisor.Wrapper.{reg, get_regs}
use open_hypervisor.Wrapper.Snapshot.{
  General, numbers, read_general, numbered, flags_of, restore_general,
}
use open_hypervisor.Wrapper.Snapshot.Laws.{
  latest, is_batch, get_reg-set_regs, latest-append, latest_read, get_regs_cons, read_reg-lt,
  read_reg-lt_flags,
}

get_reg_read :
    (h : Host) (id r : ℕ) (s : VcpuSlot)
    → owned_vcpu h id ≡ some s
    → hv_vcpu_get_reg h id r true ≡ read_reg s.ctx r
unfolding hv_vcpu_get_reg
get_reg_read h id r s owned = ground arith

read_reg_some : (c : Ctx) (r : ℕ) → r ≤ 34 → (v : ℕ) × (read_reg c r ≡ ok v)
unfolding read_reg
read_reg_some c r le =
    let P : Result ℕ → Type 0 = λ x. (v : ℕ) × (x ≡ ok v) in
    if_cases P (r == reg_cpsr) _ _ (λ _. (_, refl))
      (λ a.
        if_cases P (r == reg_fpcr) _ _ (λ _. (_, refl))
          (λ b.
            if_cases P (r == reg_fpsr) _ _ (λ _. (_, refl))
              (λ c. if_cases P (ltb 31 r) _ _ (λ d. absurd (ground arith)) (λ _. (_, refl)))))

-- What `read_general` has read.
Read : Host → ℕ → General → Type 0
Read h id g =
    (get_regs h id (numbers 0 32) ≡ ok g.gpr)
    × (reg h id reg_cpsr ≡ ok g.cpsr)
    × (reg h id reg_fpcr ≡ ok g.fpcr)
    × (reg h id reg_fpsr ≡ ok g.fpsr)

read_general-Read : (h : Host) (id : ℕ) (g : General) → read_general h id ≡ ok g → Read h id g
unfolding read_general Read
read_general-Read h id g read = ground arith

module _ (h : Host) (id : ℕ) (s : VcpuSlot) (owned : owned_vcpu h id ≡ some s)
    (is : IsCtx s.ctx) where
  reg-lt : (r v : ℕ) → reg h id r ≡ ok v → v < 2 ^ 64
  reg-lt r v read = read_reg-lt s.ctx r v is (sym (get_reg_read h id r s owned) ∙ read)

  numbered-is_batch :
      (left i : ℕ) (vs : List ℕ) (rest : List (ℕ × ℕ))
      → get_regs h id (numbers i left) ≡ ok vs
      → i + left ≤ 32
      → is_batch rest ≡ true
      → is_batch (numbered left i vs ++ rest) ≡ true
  unfolding numbered
  numbered-is_batch zero i vs rest read le fine = fine
  numbered-is_batch (suc left) i [] rest read le fine = ground arith
  numbered-is_batch (suc left) i (v ∷ vs) rest read le fine =
      let (first, more) = get_regs_cons h id i v (numbers (suc i) left) vs read in
      ground
        (arith, reg-lt i v first, numbered-is_batch left (suc i) vs rest more (omega arith) fine)

  reg_some : (r : ℕ) → r ≤ 34 → (v : ℕ) × (reg h id r ≡ ok v)
  reg_some r le =
      let (v, is_v) = read_reg_some s.ctx r le in (v, get_reg_read h id r s owned ∙ is_v)

  flags-is_batch : (g : General) → Read h id g → is_batch (flags_of g) ≡ true
  unfolding Read
  flags-is_batch g (gpr, cpsr, fpcr, fpsr) =
      ground (
        arith,
        reg-lt reg_cpsr g.cpsr cpsr,
        reg-lt reg_fpcr g.fpcr fpcr,
        reg-lt reg_fpsr g.fpsr fpsr,
      )

  -- What a register reads that was written back as it was read.
  written_back :
      (el2 : Bool) (r v : ℕ)
      → reg h id r ≡ ok v
      → (el2 ≡ false) ⊎ ((r ≢ reg_cpsr) ⊎ ((bit_and v 0xf ≢ 8) × (bit_and v 0xf ≢ 9)))
      → written el2 r v ≡ v
  unfolding guest_pstate
  written_back el2 r v read level = elim (Bool-cases (ltb 31 r)) [
    | inr low ↦ ground arith
    | inl flag ↦
        let small =
          read_reg-lt_flags s.ctx r v is (sym (get_reg_read h id r s owned) ∙ read)
            (ground arith) in
        let same : v % 2 ^ 32 ≡ v = omega (arith, small) in
        ground (arith, same, ap (λ (w : ℕ). bit_and w 0xf) same)
  ]

  same_value : (r v q w : ℕ) → reg h id r ≡ ok v → reg h id q ≡ ok w → r ≡ q → v ≡ w
  same_value r v q w is_v is_w e = ground (arith, ap (reg h id) e)

  lower_flags :
      (g : General) (r v : ℕ)
      → Read h id g
      → reg h id r ≡ ok v
      → bit_and g.cpsr 0xf ≢ 8
      → bit_and g.cpsr 0xf ≢ 9
      → (r ≢ reg_cpsr) ⊎ ((bit_and v 0xf ≢ 8) × (bit_and v 0xf ≢ 9))
  unfolding Read
  lower_flags g r v all is_v b c = elim (Bool-cases (r == reg_cpsr)) [
    | inr other ↦ inl (ground arith)
    | inl flags ↦
        let same : v ≡ g.cpsr = same_value r v reg_cpsr g.cpsr is_v all.1 (ground arith) in
        inr (rw same (b, c))
  ]

  -- The batch of `restore` writes to a register what was read of it.
  batch_found :
      (g : General) (r v : ℕ)
      → Read h id g
      → r ≤ 34
      → reg h id r ≡ ok v
      → latest r (numbered 32 0 g.gpr ++ flags_of g) ≡ some v
  unfolding Read latest
  batch_found g r v (gpr, cpsr, fpcr, fpsr) le is_v = elim (Bool-cases (ltb r 32)) [
    | inl low ↦
        latest_read h id r v 32 0 g.gpr (flags_of g) gpr (ground arith) (ground arith)
          (ground arith) is_v
    | inr high ↦
        let which : (r ≡ reg_fpcr) ⊎ ((r ≡ reg_fpsr) ⊎ (r ≡ reg_cpsr)) = ground arith in
        latest-append r v (numbered 32 0 g.gpr) (flags_of g) (elim which [
          | inl q ↦ ground (arith, same_value r v reg_fpcr g.fpcr is_v fpcr q)
          | inr (inl q) ↦ ground (arith, same_value r v reg_fpsr g.fpsr is_v fpsr q)
          | inr (inr q) ↦ ground (arith, same_value r v reg_cpsr g.cpsr is_v cpsr q)
        ])
  ]

  -- Restoring a snapshot of a vCPU into any later state of it, in which the vCPU is still the
  -- thread's own, succeeds and brings every general register, the program counter, the flags and the
  -- floating point words back to what they were. In a machine with EL2 the flags must not name it:
  -- that level is lowered on the way in.
  pub restore-read_general :
      (h1 : Host) (t : VcpuSlot) (g : General) (r : ℕ)
      → owned_vcpu h1 id ≡ some t
      → read_general h id ≡ ok g
      → (h1.vm_el2 ≡ false) ⊎ ((bit_and g.cpsr 0xf ≢ 8) × (bit_and g.cpsr 0xf ≢ 9))
      → r ≤ 34
      → let (h2, done) = restore_general h1 id g in
        (done ≡ ok tt) × (hv_vcpu_get_reg h2 id r true ≡ hv_vcpu_get_reg h id r true)
  unfolding restore_general Read
  restore-read_general h1 t g r still read level le =
      let all = read_general-Read h id g read in
      let batch = numbered 32 0 g.gpr ++ flags_of g in
      let fine : is_batch batch ≡ true =
        numbered-is_batch 32 0 g.gpr (flags_of g) all.0 (omega arith) (flags-is_batch g all) in
      let (done, reads) = get_reg-set_regs h1 id r batch t still fine in
      let (v, is_v) = reg_some r le in
      let back : written h1.vm_el2 r v ≡ v =
        written_back h1.vm_el2 r v is_v
          (elim level [ inl off ↦ inl off | inr (b, c) ↦ inr (lower_flags g r v all is_v b c) ]) in
      (
        done,
        reads
            ∙ ap
                (λ (o : Option ℕ). elim o [
                  | none ↦ hv_vcpu_get_reg h1 id r true
                  | some w ↦ ok (written h1.vm_el2 r w)
                ])
                (batch_found g r v all le is_v)
            ∙ ap ok back
            ∙ sym is_v,
      )
