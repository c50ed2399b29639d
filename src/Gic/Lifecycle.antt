-- ===== src/Gic/Lifecycle.antt =====
-- The interrupt controller as a whole: its configuration, creation, reset, geometry and saved
-- state (src/ohv_gic.cpp).
pub mod Laws
use open_hypervisor.Base.{
  ℕ, zero, suc, ◌+◌, ◌*◌, ◌/◌, ◌%◌, ◌^◌, Bool, true, false, not, ◌&&◌, ◌||◌, Option, none, some,
  bit_or, ltb, ◌==◌, if◌then◌else◌,
}
use open_hypervisor.Context.{update, load64, store64}
use open_hypervisor.Context.Controls
use open_hypervisor.Context.State
use open_hypervisor.Hv.{hv_success, hv_bad_argument, hv_busy, hv_no_device, Result, ok, err}
use open_hypervisor.Host.{Host, max_vcpu_ids, require_vm}
use open_hypervisor.Vcpu.Slot.{VcpuSlot, mark_slot_dirty}
use open_hypervisor.Gic.Model.{
  GicConfig, GicModel, gicd_ctlr, gicd_typer, gicd_ctlr_reset, gicd_typer_reset, dist_size,
  redist_size, msi_region_size, spi_base, spi_count, dist_slots, redist_slots, msi_slots,
  modelled_cpus,
}

abbrev zero_config : GicConfig
zero_config = record {
  distributor_base = 0;
  redistributor_base = 0;
  msi_region_base = 0;
  msi_intid_base = 0;
  msi_intid_count = 0;
}

-- `allocated` is the answer of the object allocator, whose memory is zero.
abbrev pub hv_gic_config_create : Bool → Option GicConfig
hv_gic_config_create allocated = if allocated then some zero_config else none

-- `none` is a null handle.
unfoldable pub hv_gic_config_set_distributor_base : Option GicConfig → ℕ → Option GicConfig × ℕ
hv_gic_config_set_distributor_base none a = (none, hv_bad_argument)
hv_gic_config_set_distributor_base (some c) a =
    (some (record c { distributor_base = a }), hv_success)

unfoldable pub hv_gic_config_set_redistributor_base : Option GicConfig → ℕ → Option GicConfig × ℕ
hv_gic_config_set_redistributor_base none a = (none, hv_bad_argument)
hv_gic_config_set_redistributor_base (some c) a =
    (some (record c { redistributor_base = a }), hv_success)

unfoldable pub hv_gic_config_set_msi_region_base : Option GicConfig → ℕ → Option GicConfig × ℕ
hv_gic_config_set_msi_region_base none a = (none, hv_bad_argument)
hv_gic_config_set_msi_region_base (some c) a = (some (record c { msi_region_base = a }), hv_success)

unfoldable pub hv_gic_config_set_msi_interrupt_range :
    Option GicConfig → ℕ → ℕ → Option GicConfig × ℕ
hv_gic_config_set_msi_interrupt_range none base count = (none, hv_bad_argument)
hv_gic_config_set_msi_interrupt_range (some c) base count =
    (some (record c { msi_intid_base = base; msi_intid_count = count }), hv_success)

-- The distributor as it describes itself: both registers over an all-zero frame.
unfoldable pub reset_dist : ℕ → ℕ
unfolding update
reset_dist =
    update (update (λ _. 0) (gicd_ctlr / 4) gicd_ctlr_reset) (gicd_typer / 4) gicd_typer_reset

unfoldable pub fresh_gic : GicConfig → GicModel
unfolding reset_dist
fresh_gic c = record {
  cfg = c;
  dist = reset_dist;
  redist = λ _ _. 0;
  icc = λ _ _. 0;
  ich = λ _ _. 0;
  icv = λ _ _. 0;
  msi = λ _. 0;
}

-- Whether one of the `n` lowest slots is in use: `for (auto &v : ohv::g_vcpus) if (v.used) ...`.
unfoldable pub any_used : (ℕ → VcpuSlot) → ℕ → Bool
any_used vcpus zero = false
any_used vcpus (suc n) = (vcpus n).used || any_used vcpus n

-- `for (auto &s : g_vcpus) if (s.used && s.ctx) ...`, for a body that looks at one slot alone.
unfoldable pub each_running : (VcpuSlot → VcpuSlot) → (ℕ → VcpuSlot) → ℕ → VcpuSlot
each_running f vcpus i =
    if ltb i max_vcpu_ids && ((vcpus i).used && (vcpus i).mapped) then f (vcpus i) else vcpus i

-- Switches the virtual CPU interface on.
unfoldable pub enable_interface : VcpuSlot → VcpuSlot
enable_interface s =
    let c = store64 s.ctx Controls.ich_hcr_el2 (bit_or (load64 s.ctx Controls.ich_hcr_el2) 1) in
    mark_slot_dirty (record s { ctx = c }) (bit_or State.gic State.controls)

unfoldable pub gic_dirty : VcpuSlot → VcpuSlot
gic_dirty s = mark_slot_dirty s State.gic

unfoldable pub hv_gic_create : Host → Option GicConfig → Host × ℕ
unfolding require_vm
hv_gic_create h none = (h, hv_bad_argument)
hv_gic_create h (some c) =
    if not (require_vm h == hv_success)
    then (h, hv_no_device)
    else if any_used h.vcpus max_vcpu_ids
    then (h, hv_busy)
    else elim h.gic [
      | some m ↦ (h, hv_busy)
      | none ↦ (
        record h { gic = some (fresh_gic c); vcpus = each_running enable_interface h.vcpus },
        hv_success,
      )
    ]

abbrev pub sized : Bool → ℕ → Result ℕ
sized out n = if out then ok n else err hv_bad_argument

unfoldable pub hv_gic_get_distributor_size : Bool → Result ℕ
hv_gic_get_distributor_size out = sized out dist_size

unfoldable pub hv_gic_get_redistributor_size : Bool → Result ℕ
hv_gic_get_redistributor_size out = sized out redist_size

unfoldable pub hv_gic_get_msi_region_size : Bool → Result ℕ
hv_gic_get_msi_region_size out = sized out msi_region_size

unfoldable pub hv_gic_get_spi_interrupt_range : Bool → Bool → Result (ℕ × ℕ)
hv_gic_get_spi_interrupt_range b n =
    if b && n then ok (spi_base, spi_count) else err hv_bad_argument

-- `kRedistRegion`.
abbrev pub redist_region : ℕ
redist_region = 0x2000000

abbrev pub hv_gic_get_distributor_base_alignment : Bool → Result ℕ
hv_gic_get_distributor_base_alignment out = sized out 0x10000

abbrev pub hv_gic_get_redistributor_region_size : Bool → Result ℕ
hv_gic_get_redistributor_region_size out = sized out redist_region

abbrev pub hv_gic_get_redistributor_base_alignment : Bool → Result ℕ
hv_gic_get_redistributor_base_alignment out = sized out 0x10000

abbrev pub hv_gic_get_msi_region_base_alignment : Bool → Result ℕ
hv_gic_get_msi_region_base_alignment out = sized out 0x1000

-- The number of an interrupt is its id, cut to 32 bits.
abbrev pub hv_gic_get_intid : ℕ → Bool → Result ℕ
hv_gic_get_intid interrupt out = sized out (interrupt % 2 ^ 32)

unfoldable pub hv_gic_send_msi : Host → ℕ → ℕ → ℕ
hv_gic_send_msi h address intid = elim h.gic [ none ↦ hv_no_device | some m ↦ hv_success ]

unfoldable pub hv_gic_reset : Host → Host × ℕ
hv_gic_reset h = elim h.gic [
  | none ↦ (h, hv_no_device)
  | some m ↦ (
    record h { gic = some (fresh_gic m.cfg); vcpus = each_running gic_dirty h.vcpus },
    hv_success,
  )
]

-- The bytes of a saved state that are as long as the model are a model; others are `none`.
unfoldable pub hv_gic_set_state : Host → Option GicModel → Host × ℕ
hv_gic_set_state h saved = elim h.gic [
  | none ↦ (h, hv_no_device)
  | some m ↦ elim saved [
    | none ↦ (h, hv_bad_argument)
    | some m' ↦ (record h { gic = some m'; vcpus = each_running gic_dirty h.vcpus }, hv_success)
  ]
]

-- `hv_gic_state_create`: a new object, of which the allocator has zeroed all but the class.
abbrev pub hv_gic_state_create : Bool → Option GicModel
hv_gic_state_create allocated =
    if allocated
    then some (record {
      cfg = zero_config;
      dist = λ _. 0;
      redist = λ _ _. 0;
      icc = λ _ _. 0;
      ich = λ _ _. 0;
      icv = λ _ _. 0;
      msi = λ _. 0;
    })
    else none

-- `sizeof(GicModel)`: the configuration, padded, and the arrays of 64-bit words.
abbrev pub model_size : ℕ
model_size = 48 + 8 * (dist_slots + modelled_cpus * (redist_slots + 16 + 32 + 16) + msi_slots)

unfoldable pub hv_gic_state_get_size : Option GicModel → Bool → Result ℕ
hv_gic_state_get_size none out = err hv_bad_argument
hv_gic_state_get_size (some m) out = sized out model_size

-- The data are the bytes of the object.
unfoldable pub hv_gic_state_get_data : Option GicModel → Bool → Result GicModel
hv_gic_state_get_data none out = err hv_bad_argument
hv_gic_state_get_data (some m) out = if out then ok m else err hv_bad_argument
