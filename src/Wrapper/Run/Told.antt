-- ===== src/Wrapper/Run/Told.antt =====
-- What `Vcpu::run` hands out of an exit that the kernel reports (include/openhyp/openhyp.hpp).
use open_hypervisor.Base.{
  ℕ, suc, ◌+◌, ◌*◌, ◌/◌, ◌%◌, ◌^◌, ◌≡◌, ◌⊎◌, ap, ◌∙◌, Bool, true, false, ◌||◌, Option, some, arith,
}
use open_hypervisor.Context.{Ctx, IsCtx, load32, load64, update}
use open_hypervisor.Context.Ro
use open_hypervisor.Hv.{hv_success, ok}
use open_hypervisor.Host.{Host, owned_vcpu, put_slot}
use open_hypervisor.Vm.Kernel.{Trap, vcpu_run}
use open_hypervisor.Vcpu.Slot.{VcpuSlot}
use open_hypervisor.Vcpu.Environment.{Environment}
use open_hypervisor.Vcpu.Exit.Laws.{reason_told, due_of, exit_from_ro-told}
use open_hypervisor.Vcpu.Run.{
  Round, Machine, entered, handled, served, run_loop, finish, run_owned, hv_vcpu_run,
}
use open_hypervisor.Vcpu.Run.Spec.{told}
use open_hypervisor.Vcpu.Run.Laws.{last}
use open_hypervisor.Vcpu.Run.Cancel.{entered_requested}
use open_hypervisor.Wrapper.Run.{ExitInfo, Session, exit_info, answer, run}

looked_up : (h : Host) (id : ℕ) (s : VcpuSlot) → (put_slot h id s).vcpus id ≡ s
unfolding update
looked_up h id s = ground arith

-- `*exit_` as `run` copies it.
abbrev info_of : VcpuSlot → ExitInfo
info_of s = record {
  reason = s.exit_reason;
  syndrome = s.exit_syndrome;
  virtual_address = s.exit_virtual_address;
  physical_address = s.exit_physical_address;
}

answered :
    {K : Type 0} (h : Host) (id : ℕ) (m : Machine K)
    → answer id (some (put_slot h id m.slot, m, hv_success))
      ≡ some (
        record { host = put_slot h id m.slot; kernel = m.kernel; held = m.held; band = m.band },
        ok (info_of m.slot),
      )
unfolding exit_info
answered h id m =
    ap
      (λ (s : VcpuSlot). some (
        record { host = put_slot h id m.slot; kernel = m.kernel; held = m.held; band = m.band },
        exit_info s hv_success,
      ))
      (looked_up h id m.slot)

module _ {K : Type 0} (trap : Trap K) (refresh : K → Ctx → Ctx) (e : Environment) where
  -- The first entry of a call on a vCPU, when the kernel is back from it, and its exit handled.
  abbrev pub first : (ℕ → Round) → VcpuSlot → Session K → Machine K
  first rounds s c =
      entered trap refresh e c.host (rounds 0)
        (record { kernel = c.kernel; slot = s; held = c.held; band = c.band })

  abbrev pub exited : (ℕ → Round) → VcpuSlot → Session K → Machine K × Bool
  exited rounds s c = handled trap refresh e c.host (rounds 0) (first rounds s c)

  told_run :
      (fuel : ℕ) (rounds : ℕ → Round) (id : ℕ) (c : Session K) (s : VcpuSlot)
      → owned_vcpu c.host id ≡ some s
      → (trap vcpu_run c.kernel).0.code ≡ hv_success
      → (s.exit_requested || (rounds 0).asked) ≡ false
      → (exited rounds s c).1 ≡ true
      → let m' = served (exited rounds s c).0 in
        run trap refresh e (suc fuel) rounds id c
        ≡ answer id (some (put_slot c.host id m'.slot, m', hv_success))
  unfolding run hv_vcpu_run run_owned
  told_run fuel rounds id c s owned code quiet t =
      let m : Machine K = record { kernel = c.kernel; slot = s; held = c.held; band = c.band } in
      let m' = served (exited rounds s c).0 in
      let loop : run_loop trap refresh e c.host (suc fuel) rounds 0 m ≡ some (m', hv_success) =
        last trap refresh e c.host rounds (suc fuel) 0 hv_success m m'
          (told (ground arith) (entered_requested trap refresh e c.host (rounds 0) m ∙ quiet) t)
          (omega arith) in
      ap
        (λ (o : Option VcpuSlot).
          answer id (run_owned trap refresh e c.host o (suc fuel) rounds c.kernel c.held c.band id))
        owned
      ∙ ap (λ (o : Option (Machine K × ℕ)). answer id (finish trap refresh e c.host id o)) loop

  -- A run whose first exit is one that the VMM is told of hands out what the kernel wrote of it: the
  -- reason, the two addresses and, where it gave one, the syndrome. The vCPU is the thread's own, the
  -- kernel lets it run, and nobody asks for an exit before the kernel is back.
  pub run-told :
      (fuel : ℕ) (rounds : ℕ → Round) (id : ℕ) (c : Session K) (s : VcpuSlot)
      → owned_vcpu c.host id ≡ some s
      → (trap vcpu_run c.kernel).0.code ≡ hv_success
      → (s.exit_requested || (rounds 0).asked) ≡ false
      → IsCtx (first rounds s c).slot.ctx
      → (exited rounds s c).1 ≡ true
      → let m = first rounds s c in
        let reason = load32 m.slot.ctx Ro.exit_reason in
        let esr = load64 m.slot.ctx Ro.exit_esr in
        let far = load64 m.slot.ctx Ro.exit_far in
        let hpfar = load64 m.slot.ctx Ro.exit_hpfar in
        let due = due_of c.host (rounds 0).surroundings trap refresh e m.kernel m.slot in
        (c' : Session K) × (info : ExitInfo) × (run trap refresh e (suc fuel) rounds id c
          ≡ some (c', ok info))
        × (info.reason ≡ reason_told reason due)
        × ((esr ≡ 0) ⊎ (info.syndrome ≡ esr))
        × (info.virtual_address ≡ far)
        × (info.physical_address ≡ hpfar / 2 ^ 12 * 2 ^ 12 + far % 2 ^ 12)
  unfolding handled
  run-told fuel rounds id c s owned code quiet is t =
      let m = first rounds s c in
      let m' = served (exited rounds s c).0 in
      let (_, reason, syndrome, address, page) =
        exit_from_ro-told c.host (rounds 0).surroundings trap refresh e m.kernel m.slot
          ((rounds 0).held m.held) is t in
      (
        record {
          host = put_slot c.host id m'.slot;
          kernel = m'.kernel;
          held = m'.held;
          band = m'.band;
        },
        info_of m'.slot,
        told_run fuel rounds id c s owned code quiet t ∙ answered c.host id m',
        reason,
        syndrome,
        address,
        page,
      )
