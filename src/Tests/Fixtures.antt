-- ===== src/Tests/Fixtures.antt =====
-- A small host with a guest hypervisor, an interrupt controller and one vCPU.
use open_hypervisor.Base.{ℕ, true, false, none, some, List, [], ◌∷◌, arith, ◌==◌, if◌then◌else◌}
use open_hypervisor.Context.{Ctx, IsCtx}
use open_hypervisor.Host.{Host, MapRecord}
use open_hypervisor.Vcpu.Slot.{VcpuSlot, fresh_slot}
use open_hypervisor.Gic.Model.{GicConfig, GicModel}
use open_hypervisor.Gic.Registers.Laws.{OwnIds}
use open_hypervisor.Vm.Kernel.{Trap, Request, recording}

abbrev pub blank : Ctx
blank = λ _. 0

pub blank-IsCtx : IsCtx blank
blank-IsCtx i = omega arith

abbrev pub slot : VcpuSlot
slot = record fresh_slot { used = true; mapped = true; guest_at_el2 = true }

abbrev pub gic_config : GicConfig
gic_config = record {
  distributor_base = 0x8000000;
  redistributor_base = 0x8100000;
  msi_region_base = 0x8200000;
  msi_intid_base = 0;
  msi_intid_count = 0;
}

-- No virtual machine yet.
abbrev pub empty_host : Host
empty_host = record {
  vm_alive = false;
  vm_isa = 0;
  vm_el2 = false;
  vm_vhe = false;
  gic = none;
  vcpus = λ _. fresh_slot;
  current = none;
  nested_asid = [];
  maps = [];
  ipa_bits = none;
  id_caps = none;
  caps_cached = none;
}

-- A virtual machine with EL2 and two nested spaces, before its first vCPU.
abbrev pub vm_host : Host
vm_host = record empty_host { vm_alive = true; vm_el2 = true; nested_asid = 5 ∷ 6 ∷ [] }

abbrev pub shared_frame : ℕ → ℕ
shared_frame w = if w == 65 then 1 else 0

abbrev pub gic_model : GicModel
gic_model = record {
  cfg = gic_config;
  dist = shared_frame;
  redist = λ _ _. 0;
  icc = λ _ _. 0;
  ich = λ _ _. 0;
  icv = λ _ _. 0;
  msi = λ _. 0;
}

-- The same with an interrupt controller and vCPU 0, bound to the calling thread.
abbrev pub running : Host
running = record vm_host {
  gic = some gic_model;
  vcpus = λ i. if i == 0 then slot else fresh_slot;
  current = some 0;
}

pub running-OwnIds : OwnIds running
running-OwnIds i used = ground arith

abbrev pub one_map : MapRecord
one_map = record { uva = 0x10000; ipa = 0x4000; size = 0x8000 }

-- A kernel that grants everything.
abbrev pub granting : Trap (List Request)
granting = recording (λ _. record { code = 0; word = 7 })

-- Its vCPU pages: zero but for the magic number of the version.
abbrev pub fresh_pages : List Request → ℕ → Ctx
fresh_pages k a i = if i == 4097 then 0x20687970 else 0
