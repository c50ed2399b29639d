-- ===== src/Gic/Spi.antt =====
-- `hv_gic_set_spi` (src/ohv_gic.cpp): a shared interrupt is recorded in the distributor and put
-- into, or taken out of, a list register of the first vCPU.
pub mod ListRegisters
pub mod Laws
use open_hypervisor.Base.{
  ℕ, zero, suc, ◌+◌, ◌-◌, ◌*◌, ◌/◌, ◌%◌, ◌^◌, Bool, true, false, not, ◌&&◌, ◌||◌, Option, none,
  some, bit_and, bit_or, ltb, leb, ◌==◌, if◌then◌else◌,
}
use open_hypervisor.Base.Bits.{not64}
use open_hypervisor.Context.{Ctx, update, load64, store64, mark_dirty}
use open_hypervisor.Context.State
use open_hypervisor.Hv.{hv_success, hv_bad_argument, hv_no_device}
use open_hypervisor.Host.{Host, put_slot, max_vcpu_ids}
use open_hypervisor.Vcpu.Slot.{VcpuSlot}
use open_hypervisor.Gic.Model.{
  GicModel, dist_slots, modelled_cpus, spi_base, spi_count, gicd_isenabler0, gicd_ispendr0,
  gicd_ipriorityr0,
}
use ListRegisters.{inject, retire}

-- `for (auto &v : g_vcpus) if (v.used && v.ctx) { target = &v; break; }`, `left` slots from `i` on.
unfoldable pub first_mapped : (ℕ → VcpuSlot) → ℕ → ℕ → Option ℕ
first_mapped vcpus zero i = none
first_mapped vcpus (suc left) i =
    let rest = first_mapped vcpus left (i + 1) in
    if (vcpus i).used && (vcpus i).mapped then some i else rest

-- The words of the distributor that describe `intid`.
abbrev pub pending_word : ℕ → ℕ
pending_word intid = gicd_ispendr0 / 4 + intid / 32

abbrev pub enabled_word : ℕ → ℕ
enabled_word intid = gicd_isenabler0 / 4 + intid / 32

abbrev pub spi_bit : ℕ → ℕ
spi_bit intid = 2 ^ (intid % 32)

abbrev pub spi_priority : (ℕ → ℕ) → ℕ → ℕ
spi_priority dist intid = dist (gicd_ipriorityr0 / 4 + intid / 4) / 2 ^ (8 * (intid % 4)) % 2 ^ 8

-- `level ? (m->dist[pend] | bit) : (m->dist[pend] & ~bit)`.
unfoldable pub record_pending : (ℕ → ℕ) → ℕ → Bool → ℕ → ℕ
unfolding update
record_pending dist intid level = update dist (pending_word intid) (
    if level
    then bit_or (dist (pending_word intid)) (spi_bit intid)
    else bit_and (dist (pending_word intid)) (not64 (spi_bit intid)))

-- What becomes of the target's context.
unfoldable pub deliver : (ℕ → ℕ) → ℕ → Bool → Ctx → Ctx
deliver dist intid level c =
    if level
    then if bit_and (dist (enabled_word intid)) (spi_bit intid) == 0
      then c
      else inject intid (spi_priority dist intid) c
    else retire intid c

unfoldable pub hv_gic_set_spi : Host → ℕ → Bool → Host × ℕ
hv_gic_set_spi h intid level = elim h.gic [
  | none ↦ (h, hv_no_device)
  | some m ↦
      if ltb intid spi_base || leb (spi_base + spi_count) intid
      then (h, hv_bad_argument)
      else if leb dist_slots (pending_word intid)
      then (h, hv_bad_argument)
      else let dist = record_pending m.dist intid level in
        let h' : Host = record h { gic = some (record m { dist = dist }) } in
        elim (first_mapped h.vcpus max_vcpu_ids 0) [
          | none ↦ (h', hv_success)
          | some t ↦
              let s = h.vcpus t in
              if leb modelled_cpus s.id
              then (h', hv_success)
              else (put_slot h' t (record s { ctx = deliver dist intid level s.ctx }), hv_success)
        ]
]
