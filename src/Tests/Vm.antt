-- ===== src/Tests/Vm.antt =====
-- Runs of the virtual machine's calls.
use open_hypervisor.Base.{◌+◌, ◌-◌, ◌%◌, ◌^◌, ◌≡◌, refl, true, some, [], ◌∷◌, arith}
use open_hypervisor.Host.{Host, MapRecord, require_vm}
use open_hypervisor.Tests.Fixtures.{vm_host, one_map, granting}
use open_hypervisor.Vm.Kernel.{MapItem}
use open_hypervisor.Vm.Maps.{find_map, guest_ptr, covers}
use open_hypervisor.Vm.Maps.Lookup.{Holds, Inside, guest_ptr_sound}
use open_hypervisor.Vm.Config.{VmConfig}
use open_hypervisor.Vm.Memory.{map_op, in_spaces, hv_vm_map}
use open_hypervisor.Vm.Memory.Laws.{guest_ptr-hv_vm_map}
use open_hypervisor.Vm.Spaces.Laws.{mapping, whole, by_hand, each_space, memory-each_space}

abbrev el2_config : VmConfig
el2_config = record {
  ipa_bits = 36;
  el2_enabled = true;
  vhe_enabled = true;
  isa = 1;
  granule = 0x4000;
}

abbrev full_host : Host
full_host = record vm_host { nested_asid = 1 ∷ 2 ∷ 3 ∷ 4 ∷ 5 ∷ 6 ∷ 7 ∷ 8 ∷ [] }

abbrev item : MapItem
item = record { uva = 0x10000; ipa = 0x4000; size = 0x8000; flags = 7; asid = 0 }

guest_ptr-hv_vm_map_example :
    guest_ptr (hv_vm_map granting vm_host [] 0x10000 0x4000 0x8000 7).0.maps (0x4000 + 0x100) 8
    ≡ some 0x10100
unfolding hv_vm_map map_op in_spaces require_vm find_map guest_ptr
guest_ptr-hv_vm_map_example =
    guest_ptr-hv_vm_map granting vm_host [] 0x10000 0x4000 0x8000 7 0x100 8 refl (omega arith) refl
      refl (omega arith) (omega arith)

guest_ptr_sound_example :
    (m : MapRecord) × Holds m (one_map ∷ [])
    × Inside m 0x4100 8
    × (0x10100 ≡ (m.uva + (0x4100 - m.ipa)) % 2 ^ 64)
unfolding guest_ptr covers
guest_ptr_sound_example =
    guest_ptr_sound (one_map ∷ []) 0x4100 8 0x10100 (omega arith, tt) (omega arith) refl

memory-each_space_example :
    (whole granting (mapping 0x10000 7) vm_host [] 0x4000 0x8000).1
    ≡ each_space
        (λ a k. by_hand granting (mapping 0x10000 7) vm_host k a 0x4000 0x8000)
        (0 ∷ 5 ∷ 6 ∷ [])
        []
unfolding hv_vm_map map_op require_vm
memory-each_space_example =
    memory-each_space granting (mapping 0x10000 7) vm_host [] 0x4000 0x8000 refl
