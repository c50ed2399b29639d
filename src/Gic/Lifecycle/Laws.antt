-- ===== src/Gic/Lifecycle/Laws.antt =====
-- Creating and resetting the interrupt controller.
use open_hypervisor.Base.{
  ℕ, zero, suc, ◌/◌, ◌%◌, ◌<◌, ◌≡◌, true, false, ◌&&◌, arith, Option, none, some, ltb, ◌==◌,
  if◌then◌else◌, Bool-cases, inl, inr,
}
use open_hypervisor.Hv.{hv_success, hv_busy, hv_bad_argument, Result, ok, err}
use open_hypervisor.Host.{Host, max_vcpu_ids}
use open_hypervisor.Vcpu.Slot.{VcpuSlot}
use open_hypervisor.Gic.Model.{
  GicConfig, GicModel, dist_slots, gicd_ctlr, gicd_typer, gicd_ctlr_reset, gicd_typer_reset,
}
use open_hypervisor.Gic.Registers.{hv_gic_get_distributor_reg}
use open_hypervisor.Gic.Lifecycle.{
  any_used, each_running, fresh_gic, reset_dist, hv_gic_create, hv_gic_reset, hv_gic_set_state,
  hv_gic_state_create, hv_gic_state_get_data,
}

any_used-at :
    (vcpus : ℕ → VcpuSlot) (n i : ℕ) → i < n → (vcpus i).used ≡ true → any_used vcpus n ≡ true
unfolding any_used
any_used-at vcpus zero i lt used = ground arith
any_used-at vcpus (suc n) i lt used = elim (Bool-cases (n == i)) [
  | inl e ↦ ground arith
  | inr e ↦ ground (arith, any_used-at vcpus n i)
]

-- The controller is made once, and before any vCPU: a successful creation had a virtual machine,
-- no controller and no vCPU in use, and changes no slot.
pub hv_gic_create_granted :
    (h : Host) (config : Option GicConfig) (i : ℕ)
    → (hv_gic_create h config).1 ≡ hv_success
    → i < max_vcpu_ids
    → (h.vm_alive ≡ true)
      × (h.gic ≡ none)
      × ((h.vcpus i).used ≡ false)
      × ((hv_gic_create h config).0.vcpus i ≡ h.vcpus i)
unfolding hv_gic_create each_running
hv_gic_create_granted h none i granted lt = ground arith
hv_gic_create_granted h (some c) i granted lt =
    ground (arith, any_used-at h.vcpus max_vcpu_ids i lt)

-- A second creation is refused, whatever came before and whatever the configuration.
pub hv_gic_create_twice :
    (h : Host) (c c' : GicConfig)
    → (hv_gic_create h (some c)).1 ≡ hv_success
    → hv_gic_create (hv_gic_create h (some c)).0 (some c') ≡ ((hv_gic_create h (some c)).0, hv_busy)
unfolding hv_gic_create
hv_gic_create_twice h c c' granted = ground arith

-- Where there is a controller, a reset distributor describes itself: its two registers read
-- their reset values again and every other one reads zero, whatever was written before; an
-- offset that is not a register's is refused.
pub get_distributor_reg-reset :
    (h : Host) (m : GicModel) (reg : ℕ)
    → h.gic ≡ some m
    → hv_gic_get_distributor_reg (hv_gic_reset h).0 reg true ≡ (
        if reg % 4 == 0 && ltb (reg / 4) dist_slots
        then ok (
            if reg == gicd_typer
            then gicd_typer_reset
            else if reg == gicd_ctlr
            then gicd_ctlr_reset
            else 0)
        else err hv_bad_argument)
unfolding hv_gic_reset fresh_gic reset_dist hv_gic_get_distributor_reg
get_distributor_reg-reset h m reg has = ground arith

-- The data that a call handed over, if it did.
abbrev pub data_of {ℓ} : {A : Type ℓ} → Result A → Option A
data_of (ok a) = some a
data_of (err c) = none

-- A state that is created, and restored by its data, holds nothing of the controller: the call
-- succeeds, and afterwards every register of the distributor reads zero, also those that describe
-- it, whatever the controller held; an offset that is not a register's is refused.
pub get_distributor_reg-set_state :
    (h : Host) (m : GicModel) (reg : ℕ)
    → h.gic ≡ some m
    → let saved = data_of (hv_gic_state_get_data (hv_gic_state_create true) true) in
      let (h', r) = hv_gic_set_state h saved in
      (r ≡ hv_success)
      × (hv_gic_get_distributor_reg h' reg true
          ≡ (if reg % 4 == 0 && ltb (reg / 4) dist_slots then ok 0 else err hv_bad_argument))
unfolding hv_gic_set_state hv_gic_state_get_data hv_gic_get_distributor_reg
get_distributor_reg-set_state h m reg has = ground arith
