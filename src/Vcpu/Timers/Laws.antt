-- ===== src/Vcpu/Timers/Laws.antt =====
-- When a timer fires, what the band is learned to be, and that the levels stay gated.
use open_hypervisor.Base.{
  ℕ, ◌+◌, ◌-◌, ◌*◌, ◌/◌, ◌^◌, ◌≤◌, ◌<◌, ◌≡◌, ◌⊎◌, true, not, ◌&&◌, ◌||◌, arith, bit_and, bit_or,
  List, [], ◌∷◌, ltb, ◌==◌, if◌then◌else◌,
}
use open_hypervisor.Base.Bits.{
  not64, bit_at, bit_at-and, bit_at-or, bit_at-complement, bit_at-le-one, bit_at-one_hot,
  bit_and-one_hot, bit_and_shifted, bit_and_low,
}
use open_hypervisor.Context.{IsCtx, update, load64, store64}
use open_hypervisor.Context.Laws.{
  load64-store64-Apart, load64-mark_dirty, load64-lt, mark_dirty-IsCtx, store64-IsCtx,
}
use open_hypervisor.Context.Rw
use open_hypervisor.Context.State
use open_hypervisor.Vcpu.Slot.{VcpuSlot, mark_slot_dirty}
use open_hypervisor.Vcpu.Environment.{Environment}
use open_hypervisor.Vcpu.Interrupts.{ohv_set_irq_level, ohv_set_fiq_level}
use open_hypervisor.Vcpu.Interrupts.Gate.{gates_on, well_gated, refresh-gated}
use open_hypervisor.Vcpu.Timers.{
  cnt_istatus, publish_band, ohv_note_image_band, is_due, tick, banked, virtual_round,
  physical_round, ohv_expire_timers, shadow_cntp_ctl,
}

-- The status bit of an enabled timer says whether its compare value has passed, and it has fired
-- where it is not masked as well; a timer that is off does nothing. No other bit of the control
-- word moves, and the word is marked dirty wherever it changed.
pub tick_lem :
    (now ctl cval k : ℕ)
    → k < 64
    → let t = tick now ctl cval in
      (bit_at t.ctl k ≡ (
        if bit_at ctl 0 == 1 && k == 2 then (if is_due now cval then 1 else 0) else bit_at ctl k))
      × (t.fired ≡ (bit_at ctl 0 == 1 && (is_due now cval && bit_at ctl 1 == 0)))
      × ((t.dirty || t.ctl == ctl) ≡ true)
unfolding tick
tick_lem now ctl cval k lk = ground (
  arith,
  bit_and-one_hot 0 ctl,
  bit_and-one_hot 1 ctl,
  bit_and-one_hot 2 ctl,
  bit_and-one_hot 1 (bit_or ctl cnt_istatus),
  bit_at-le-one 0 ctl,
  bit_at-le-one 1 ctl,
  bit_at-le-one 2 ctl,
  bit_at-le-one k ctl,
  bit_at-or k ctl cnt_istatus,
  bit_at-or 1 ctl cnt_istatus,
  bit_at-and k ctl (not64 cnt_istatus),
  bit_at-complement 64 k cnt_istatus lk,
  bit_at-one_hot 2 k,
  bit_at-one_hot 2 1,
)

-- A compare value that is at most half the counter's range ahead is due from the moment the
-- counter reaches it.
is_due_lem :
    (now cval : ℕ)
    → now < 2 ^ 64
    → cval < 2 ^ 64
    → cval < now + 2 ^ 63
    → now < cval + 2 ^ 63
    → is_due now cval ≡ not (ltb now cval)
unfolding is_due
is_due_lem now cval ln lc near near' = ground arith

-- Whatever other threads store in between, the shared band ends above zero and at no more than
-- this thread's.
pub publish_band_bound :
    (seen : ℕ) (races : List ℕ) (band : ℕ)
    → 0 < band
    → (0 < publish_band seen races band) × (publish_band seen races band ≤ band)
unfolding publish_band
publish_band_bound seen [] band pos = ground arith
publish_band_bound seen (r ∷ races) band pos = ground (arith, publish_band_bound r races band pos)

-- The region of the addresses that monitor images are linked at.
abbrev pub monitor_space : ℕ
monitor_space = 0xfffffff000000000

-- Where the monitor starts, as far as the slot knows it after an exit: at or below the 256 MB that a
-- program counter in the region lies in. It is unknown only where nothing has been seen yet.
note_band :
    (s : VcpuSlot) (shared : ℕ) (races : List ℕ)
    → IsCtx s.ctx
    → let base = (ohv_note_image_band s shared races).0.sptm_base in
      let pc = load64 s.ctx Rw.pc in
      ((0 < base) ⊎ ((s.sptm_base ≡ 0) × (shared ≡ 0) × (pc < monitor_space)))
      × ((base ≤ pc) ⊎ (pc < monitor_space))
unfolding ohv_note_image_band
note_band s shared races isctx =
    let pc = load64 s.ctx Rw.pc in
    let band : bit_and pc (not64 0xfffffff) ≡ pc / 2 ^ 28 * 2 ^ 28 = omega (
      arith,
      bit_and_shifted 28 pc (2 ^ 36 - 1),
      bit_and_low 36 (pc / 2 ^ 28),
      load64-lt s.ctx Rw.pc isctx,
    ) in
    ground arith

note_band-ctx :
    (s : VcpuSlot) (shared : ℕ) (races : List ℕ)
    → ((ohv_note_image_band s shared races).0.ctx ≡ s.ctx)
      × ((ohv_note_image_band s shared races).0.el2_shadow ≡ s.el2_shadow)
unfolding ohv_note_image_band
note_band-ctx s shared races = ground arith

mark_slot_dirty-IsCtx : (s : VcpuSlot) (bit : ℕ) → IsCtx s.ctx → IsCtx (mark_slot_dirty s bit).ctx
unfolding mark_slot_dirty
mark_slot_dirty-IsCtx s bit h i = ground (arith, h i, mark_dirty-IsCtx s.ctx bit h i)

virtual_round-IsCtx : (now : ℕ) (s : VcpuSlot) → IsCtx s.ctx → IsCtx (virtual_round now s).ctx
unfolding virtual_round
virtual_round-IsCtx now s h i =
    let t = tick now (load64 s.ctx (banked 18)) (load64 s.ctx (banked 9)) in
    let c = store64 s.ctx (banked 18) t.ctl in
    ground (
      arith,
      h i,
      mark_slot_dirty-IsCtx (record s { ctx = c }) State.sysregs
          (store64-IsCtx s.ctx (banked 18) t.ctl h) i,
    )

physical_round-IsCtx : (now : ℕ) (s : VcpuSlot) → IsCtx s.ctx → IsCtx (physical_round now s).ctx
unfolding physical_round
physical_round-IsCtx now s h i =
    let t = tick now (s.el2_shadow shadow_cntp_ctl) (load64 s.ctx (banked 10)) in
    ground (
      arith,
      h i,
      mark_slot_dirty-IsCtx (record s { el2_shadow = update s.el2_shadow shadow_cntp_ctl t.ctl })
          State.sysregs h i,
    )

rounds-sptm_base :
    (now : ℕ) (s : VcpuSlot) → (physical_round now (virtual_round now s)).sptm_base ≡ s.sptm_base
unfolding physical_round virtual_round mark_slot_dirty
rounds-sptm_base now s = ground arith

-- Before every entry into the guest the levels are set anew: with the gates as they are by
-- default and pages of 32-bit cells, whatever the levels were, the timers and the location of the monitor, no level stands
-- then that the guest would not take at once, which is while it runs in the monitor or its own bit
-- of PSTATE masks the interrupt and it is not parked; the monitor is the 512 MB from its base, with
-- an end that wraps at 2 ^ 64. The exception is a guest whose monitor is
-- not known, and it is not known only where no vCPU was seen in the monitors' region, nor this
-- one's program counter is there now; a program counter there is never below the known base.
pub expire_timers-gated :
    (e : Environment) (now : ℕ) (s : VcpuSlot) (shared : ℕ) (races : List ℕ)
    → gates_on e ≡ true
    → IsCtx s.ctx
    → let s' = (ohv_expire_timers e now s shared races).0 in
      let pc = load64 s.ctx Rw.pc in
      (well_gated s' ≡ true)
      × ((0 < s'.sptm_base) ⊎ ((s.sptm_base ≡ 0) × (shared ≡ 0) × (pc < monitor_space)))
      × ((s'.sptm_base ≤ pc) ⊎ (pc < monitor_space))
unfolding ohv_expire_timers ohv_set_irq_level ohv_set_fiq_level
expire_timers-gated e now s shared races on isctx =
    let s0 = (ohv_note_image_band s shared races).0 in
    let isctx0 : IsCtx s0.ctx = λ i. ground (arith, note_band-ctx s shared races, isctx i) in
    let gated =
      refresh-gated e (physical_round now (virtual_round now s0)) on
        (physical_round-IsCtx now (virtual_round now s0) (virtual_round-IsCtx now s0 isctx0)) in
    let band = note_band s shared races isctx in
    (gated, rw (rounds-sptm_base now s0) band.0, rw (rounds-sptm_base now s0) band.1)

virtual_round_lem :
    (now : ℕ) (s : VcpuSlot)
    → (load64 (virtual_round now s).ctx (banked 10) ≡ load64 s.ctx (banked 10))
      × ((virtual_round now s).el2_shadow ≡ s.el2_shadow)
unfolding virtual_round mark_slot_dirty
virtual_round_lem now s =
    let t = tick now (load64 s.ctx (banked 18)) (load64 s.ctx (banked 9)) in
    ground (
      arith,
      load64-mark_dirty (store64 s.ctx (banked 18) t.ctl) State.sysregs (banked 10),
      load64-store64-Apart s.ctx (banked 18) (banked 10) t.ctl,
    )

physical_round_lem :
    (now : ℕ) (s : VcpuSlot)
    → let t = tick now (s.el2_shadow shadow_cntp_ctl) (load64 s.ctx (banked 10)) in
      ((physical_round now s).el2_shadow shadow_cntp_ctl ≡ t.ctl)
      × ((physical_round now s).timer_fired_p ≡ t.fired)
unfolding physical_round mark_slot_dirty
physical_round_lem now s =
    let ctl = s.el2_shadow shadow_cntp_ctl in
    let cval = load64 s.ctx (banked 10) in ground (arith, tick_lem now ctl cval 0)

-- The guest's physical timer before an entry: where it is enabled its status says whether the
-- compare value has passed, and it is reported as fired where it is due and not masked.
pub expire_timers-physical :
    (e : Environment) (now : ℕ) (s : VcpuSlot) (shared : ℕ) (races : List ℕ)
    → let s' = (ohv_expire_timers e now s shared races).0 in
      let ctl = s.el2_shadow shadow_cntp_ctl in
      let due = is_due now (load64 s.ctx (banked 10)) in
      (bit_at (s'.el2_shadow shadow_cntp_ctl) 2
        ≡ (if bit_at ctl 0 == 1 then (if due then 1 else 0) else bit_at ctl 2))
      × (s'.timer_fired_p ≡ (bit_at ctl 0 == 1 && (due && bit_at ctl 1 == 0)))
unfolding ohv_expire_timers ohv_set_irq_level ohv_set_fiq_level
expire_timers-physical e now s shared races =
    let s0 = (ohv_note_image_band s shared races).0 in
    ground (
      arith,
      note_band-ctx s shared races,
      virtual_round_lem now s0,
      physical_round_lem now (virtual_round now s0),
      tick_lem now (s.el2_shadow shadow_cntp_ctl) (load64 s.ctx (banked 10)) 2,
    )
