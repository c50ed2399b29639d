-- ===== src/Vcpu/Timers.antt =====
-- The guest's timers and where the monitor images are (`ohv_note_image_band`, `ohv_expire_timers`,
-- src/ohv_vcpu.cpp).
pub mod Laws
use open_hypervisor.Base.{
  ℕ, ◌+◌, ◌-◌, ◌*◌, ◌%◌, ◌^◌, Bool, true, false, not, ◌&&◌, ◌||◌, List, [], ◌∷◌, bit_and, bit_or,
  ltb, leb, ◌==◌, if◌then◌else◌,
}
use open_hypervisor.Base.Bits.{not64}
use open_hypervisor.Context.{update, load64, store64}
use open_hypervisor.Context.Rw
use open_hypervisor.Context.State
use open_hypervisor.Vcpu.Environment.{Environment}
use open_hypervisor.Vcpu.Slot.{VcpuSlot, mark_slot_dirty}
use open_hypervisor.Vcpu.Interrupts.{ohv_set_fiq_level, ohv_set_irq_level}

abbrev pub cnt_enable : ℕ
cnt_enable = 2 ^ 0

abbrev pub cnt_imask : ℕ
cnt_imask = 2 ^ 1

abbrev pub cnt_istatus : ℕ
cnt_istatus = 2 ^ 2

abbrev pub shadow_cntp_ctl : ℕ
shadow_cntp_ctl = 30

-- The loop that lowers `g_monitor_band`: `seen` is the value that was loaded, and each element of
-- `races` one that another thread had put there by the time an exchange failed.
unfoldable pub publish_band : ℕ → List ℕ → ℕ → ℕ
publish_band seen [] band = if not (seen == 0) && leb seen band then seen else band
publish_band seen (raced ∷ races) band =
    let again = publish_band raced races band in
    if not (seen == 0) && leb seen band then seen else again

-- The slot and `g_monitor_band` after an exit.
unfoldable pub ohv_note_image_band : VcpuSlot → ℕ → List ℕ → VcpuSlot × ℕ
ohv_note_image_band s shared races =
    let pc = load64 s.ctx Rw.pc in
    let band = bit_and pc (not64 0xfffffff) in
    let base = if s.sptm_base == 0 then shared else s.sptm_base in
    if ltb pc 0xfffffff000000000
    then (record s { sptm_base = base }, shared)
    else if base == 0 || ltb band base
    then (record s { sptm_base = band }, publish_band shared races band)
    else (record s { sptm_base = base }, shared)

-- `(int64_t)(now - cval) >= 0`.
unfoldable pub is_due : ℕ → ℕ → Bool
is_due now cval = ltb ((now + 2 ^ 64 - cval) % 2 ^ 64) (2 ^ 63)

-- One round of the loop: the control word it leaves, whether it marks the registers dirty, and
-- whether the timer has fired.
pub record Tick : Type 0 where
  pub ctl : ℕ
  pub dirty : Bool
  pub fired : Bool

unfoldable pub tick : ℕ → ℕ → ℕ → Tick
tick now ctl cval =
    let raised = if bit_and ctl cnt_istatus == 0 then bit_or ctl cnt_istatus else ctl in
    if bit_and ctl cnt_enable == 0
    then record { ctl = ctl; dirty = false; fired = false }
    else if is_due now cval
    then record {
      ctl = raised;
      dirty = bit_and ctl cnt_istatus == 0;
      fired = bit_and raised cnt_imask == 0;
    }
    else if bit_and ctl cnt_istatus == 0
    then record { ctl = ctl; dirty = false; fired = false }
    else record { ctl = bit_and ctl (not64 cnt_istatus); dirty = true; fired = false }

abbrev pub banked : ℕ → ℕ
banked i = Rw.banked_sysregs + i * 8

-- Round 0, CNTV_CTL, which is a banked register.
unfoldable pub virtual_round : ℕ → VcpuSlot → VcpuSlot
virtual_round now s =
    let t = tick now (load64 s.ctx (banked 18)) (load64 s.ctx (banked 9)) in
    let s1 : VcpuSlot = record s { ctx = store64 s.ctx (banked 18) t.ctl } in
    let s2 = if t.dirty then mark_slot_dirty s1 State.sysregs else s in
    record s2 { timer_fired_v = t.fired }

-- Round 1, CNTP_CTL, which is a shadow word of the slot.
unfoldable pub physical_round : ℕ → VcpuSlot → VcpuSlot
unfolding update
physical_round now s =
    let t = tick now (s.el2_shadow shadow_cntp_ctl) (load64 s.ctx (banked 10)) in
    let s1 : VcpuSlot = record s { el2_shadow = update s.el2_shadow shadow_cntp_ctl t.ctl } in
    let s2 = if t.dirty then mark_slot_dirty s1 State.sysregs else s in
    record s2 { timer_fired_p = t.fired }

unfoldable pub ohv_expire_timers : Environment → ℕ → VcpuSlot → ℕ → List ℕ → VcpuSlot × ℕ
ohv_expire_timers e now s shared races =
    let (s0, shared') = ohv_note_image_band s shared races in
    let s2 = physical_round now (virtual_round now s0) in
    (ohv_set_irq_level e (ohv_set_fiq_level e s2), shared')
