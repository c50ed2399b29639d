-- ===== src/Gic/Spi/Laws.antt =====
-- Raising and lowering a shared interrupt: what the distributor and the list registers say.
use native.Mathlib.Nat.{pow-le-pow_right}
use open_hypervisor.Base.{
  ℕ, ◌+◌, ◌%◌, ◌^◌, ◌≤◌, ◌<◌, ◌≡◌, ◌≢◌, Bool, true, false, some, arith, bit_and, ◌==◌,
  if◌then◌else◌, Bool-cases, inl, inr, ◌&&◌,
}
use open_hypervisor.Base.Bits.{
  not64, bit_at, bit_at-and, bit_at-or, bit_at-complement, bit_at-le-one, bit_at-one_hot,
}
use open_hypervisor.Context.{Ctx}
use open_hypervisor.Hv.{hv_success}
use open_hypervisor.Host.{Host, max_vcpu_ids}
use open_hypervisor.Gic.Model.{GicModel, modelled_cpus, spi_base, spi_count}
use open_hypervisor.Gic.Spi.ListRegisters.{lr_count, lr_at, is_busy, queues}
use open_hypervisor.Gic.Spi.ListRegisters.Single.{
  Single, inject-Single, retire-Single, inject-queues,
}
use open_hypervisor.Gic.Spi.{
  first_mapped, pending_word, enabled_word, spi_bit, spi_priority, record_pending, deliver,
  hv_gic_set_spi,
}

deliver-Single :
    (dist : ℕ → ℕ) (intid : ℕ) (level : Bool) (c : Ctx)
    → intid < spi_base + spi_count
    → Single c
    → Single (deliver dist intid level c)
unfolding deliver
deliver-Single dist intid true c lt single =
    elim (Bool-cases (bit_and (dist (enabled_word intid)) (spi_bit intid) == 0)) [
      | inl e ↦ rw (e, deliver) single
      | inr e ↦
          rw (e, deliver)
            (inject-Single intid (spi_priority dist intid) c (omega arith) (omega arith) single)
    ]
deliver-Single dist intid false c lt single = retire-Single intid c single

-- Where no interrupt is queued in two list registers, raising or lowering any shared interrupt
-- leaves it so: two list registers that queue the same one are the same.
pub deliver_once :
    (dist : ℕ → ℕ) (intid : ℕ) (level : Bool) (c : Ctx) (a i j : ℕ)
    → intid < spi_base + spi_count
    → Single c
    → i < lr_count
    → j < lr_count
    → queues a (lr_at (deliver dist intid level c) i) ≡ true
    → queues a (lr_at (deliver dist intid level c) j) ≡ true
    → i ≡ j
deliver_once dist intid level c a i j lt single li lj qi qj =
    deliver-Single dist intid level c lt single a i j li lj qi qj

spi_bit-lt : (intid : ℕ) → spi_bit intid < 2 ^ 64
spi_bit-lt intid =
    let below : 2 ^ (intid % 32) ≤ 2 ^ 31 =
      pow-le-pow_right {n = 2} (omega arith) {j = 31} (omega arith) in
    omega arith

-- The pending bit of an interrupt follows the level, and no other bit of the distributor moves.
pub record_pending_lem :
    (dist : ℕ → ℕ) (intid : ℕ) (level : Bool) (w k : ℕ)
    → k < 64
    → bit_at (record_pending dist intid level w) k ≡ (
        if w == pending_word intid && k == intid % 32
        then (if level then 1 else 0)
        else bit_at (dist w) k)
unfolding record_pending
record_pending_lem dist intid level w k lt = ground (
  arith,
  bit_at-or k (dist (pending_word intid)) (spi_bit intid),
  bit_at-and k (dist (pending_word intid)) (not64 (spi_bit intid)),
  bit_at-complement 64 k (spi_bit intid) lt (spi_bit-lt intid),
  bit_at-one_hot (intid % 32) k,
  bit_at-le-one k (dist (pending_word intid)),
)

-- A call for an interrupt outside the shared range, or without a controller, changes nothing.
hv_gic_set_spi_refused :
    (h : Host) (intid : ℕ) (level : Bool)
    → (hv_gic_set_spi h intid level).1 ≢ hv_success
    → (hv_gic_set_spi h intid level).0 ≡ h
unfolding hv_gic_set_spi
hv_gic_set_spi_refused h intid level refused = ground arith

-- Raising or lowering a shared interrupt succeeds, and sets or clears its pending bit in the
-- distributor and no other bit there.
pub hv_gic_set_spi_pending :
    (h : Host) (m : GicModel) (intid : ℕ) (level : Bool) (w k : ℕ)
    → h.gic ≡ some m
    → spi_base ≤ intid
    → intid < spi_base + spi_count
    → k < 64
    → (m' : GicModel) × ((hv_gic_set_spi h intid level).0.gic ≡ some m')
      × ((hv_gic_set_spi h intid level).1 ≡ hv_success)
      × (bit_at (m'.dist w) k ≡ (
          if w == pending_word intid && k == intid % 32
          then (if level then 1 else 0)
          else bit_at (m.dist w) k))
unfolding hv_gic_set_spi
hv_gic_set_spi_pending h m intid level w k has_gic lo hi lt = (
  record m { dist = record_pending m.dist intid level },
  ground arith,
  ground arith,
  record_pending_lem m.dist intid level w k lt,
)

-- Raising an enabled shared interrupt queues it in a list register of the first vCPU that has a
-- context, if that vCPU is one of the sixteen modelled and has a list register free.
pub hv_gic_set_spi_delivers :
    (h : Host) (m : GicModel) (intid t f : ℕ)
    → h.gic ≡ some m
    → spi_base ≤ intid
    → intid < spi_base + spi_count
    → bit_and (m.dist (enabled_word intid)) (spi_bit intid) ≢ 0
    → first_mapped h.vcpus max_vcpu_ids 0 ≡ some t
    → (h.vcpus t).id < modelled_cpus
    → f < lr_count
    → is_busy (lr_at (h.vcpus t).ctx f) ≡ false
    → (j : ℕ) × (j < lr_count)
      × (queues intid (lr_at ((hv_gic_set_spi h intid true).0.vcpus t).ctx j) ≡ true)
unfolding hv_gic_set_spi deliver record_pending
hv_gic_set_spi_delivers h m intid t f has_gic lo hi enabled first modelled lf free =
    let dist = record_pending m.dist intid true in
    let (j, lj, found) =
      inject-queues intid (spi_priority dist intid) (h.vcpus t).ctx (omega arith) (omega arith)
        (f, lf, free) in
    (j, lj, ground arith)
