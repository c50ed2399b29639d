-- ===== src/Vm/Lifecycle.antt =====
-- `hv_vm_create`, `hv_vm_destroy` and the nested address spaces (src/ohv_vm.cpp).
pub mod Laws
use open_hypervisor.Base.{
  ℕ, zero, suc, ◌+◌, ◌%◌, ◌^◌, Bool, true, false, not, ◌&&◌, Option, none, some, List, [], ◌∷◌,
  ◌++◌, ltb, leb, ◌==◌, if◌then◌else◌, length,
}
use open_hypervisor.Hv.{hv_success, hv_bad_argument, hv_busy, hv_no_device, Result, ok, err}
use open_hypervisor.Host.{Host, max_vcpu_ids}
use open_hypervisor.Vcpu.Slot.{fresh_slot}
use open_hypervisor.Vm.Config.{VmConfig, isa_apple, isa_none}
use open_hypervisor.Vm.Kernel.{
  Trap, Request, Reply, capabilities, vm_create, vm_destroy, address_space_create,
}

abbrev pub nested_spaces : ℕ
nested_spaces = 8

unfoldable pub hv_vm_get_isa : Host → ℕ
hv_vm_get_isa h = if h.vm_alive then h.vm_isa else isa_none

unfoldable pub hv_vm_get_isa_checked : Host → Bool → Result ℕ
hv_vm_get_isa_checked h out =
    if not out
    then err hv_bad_argument
    else if not h.vm_alive
    then err hv_bad_argument
    else ok h.vm_isa

-- `g_max_vcpus`, which nothing sets.
abbrev pub hv_vm_get_max_vcpu_count : Bool → Result ℕ
hv_vm_get_max_vcpu_count out = if out then ok max_vcpu_ids else err hv_bad_argument

-- The request of each round.
abbrev pub space_request : Request
space_request = address_space_create (record { min_ipa = 0; ipa_size = 0; granule = 0x1000 })

-- `if (g_nested_count < kNestedSpaces) g_nested_asid[g_nested_count++] = a.out_asid`.
unfoldable pub add_space : List ℕ → ℕ → List ℕ
add_space asids asid = if ltb (length asids) nested_spaces then asids ++ asid ∷ [] else asids

-- `1ull << bits`, as the machine shifts.
abbrev pub space_size : ℕ → ℕ
space_size bits = if bits == 0 then 0 else 2 ^ (bits % 64)

abbrev pub create_args : Option VmConfig → ℕ → Request
create_args none bits =
    vm_create (record { ipa_size = space_size bits; granule = 0; isa = isa_apple })
create_args (some c) bits =
    vm_create (record { ipa_size = space_size bits; granule = c.granule; isa = c.isa })

abbrev pub granted_isa : Option VmConfig → ℕ
granted_isa none = isa_apple
granted_isa (some c) = c.isa

abbrev pub asks_el2 : Option VmConfig → Bool
asks_el2 none = false
asks_el2 (some c) = c.el2_enabled

abbrev pub asks_vhe : Option VmConfig → Bool
asks_vhe none = false
asks_vhe (some c) = c.vhe_enabled

module _ {K : Type 0} (trap : Trap K) where
  -- `machine_ipa_bits`, which asks the kernel once.
  unfoldable pub machine_ipa_bits : Host → K → Host × K × ℕ
  machine_ipa_bits h k = elim h.ipa_bits [
    | some bits ↦ (h, k, bits)
    | none ↦
        let (r, k') = trap capabilities k in
        let bits : ℕ =
          if r.code == hv_success && (leb 24 r.word && leb r.word 52) then r.word else 40 in
        (record h { ipa_bits = some bits }, k', bits)
  ]

  unfoldable pub hv_vm_config_get_max_ipa_size : Host → K → Bool → Host × K × Result ℕ
  unfolding machine_ipa_bits
  hv_vm_config_get_max_ipa_size h k out =
      let (h', k', bits) = machine_ipa_bits h k in
      if out then (h', k', ok bits) else (h, k, err hv_bad_argument)

  abbrev pub hv_vm_config_get_default_ipa_size : Host → K → Bool → Host × K × Result ℕ
  hv_vm_config_get_default_ipa_size h k out = hv_vm_config_get_max_ipa_size h k out

  -- The loop of `nested_spaces_create` with `rounds` left.
  unfoldable pub nested_spaces_create : ℕ → List ℕ → K → List ℕ × K
  unfolding add_space
  nested_spaces_create zero asids k = (asids, k)
  nested_spaces_create (suc rounds) asids k =
      let (r, k') = trap space_request k in
      let rest = nested_spaces_create rounds (add_space asids r.word) k' in
      if r.code == hv_success then rest else (asids, k')

  -- `(config && config->ipa_bits) ? config->ipa_bits : machine_ipa_bits()`.
  unfoldable pub wanted_bits : Host → K → Option VmConfig → Host × K × ℕ
  unfolding machine_ipa_bits
  wanted_bits h k none = machine_ipa_bits h k
  wanted_bits h k (some c) = if c.ipa_bits == 0 then machine_ipa_bits h k else (h, k, c.ipa_bits)

  -- The state after the kernel granted the virtual machine.
  unfoldable pub granted : Host → K → Option VmConfig → Host × K
  granted h k config =
      let spaces = nested_spaces_create nested_spaces h.nested_asid k in
      let alive : Host = record h {
        vm_alive = true;
        vm_isa = granted_isa config;
        vm_el2 = asks_el2 config;
        vm_vhe = asks_vhe config;
      } in
      if asks_el2 config then (record alive { nested_asid = spaces.0 }, spaces.1) else (alive, k)

  unfoldable pub hv_vm_create : Host → K → Option VmConfig → Host × K × ℕ
  hv_vm_create h k config =
      if h.vm_alive
      then (h, k, hv_busy)
      else let (h', k', bits) = wanted_bits h k config in
        let (r, k'') = trap (create_args config bits) k' in
        let done = granted h' k'' config in
        if r.code == hv_success then (done.0, done.1, r.code) else (h', k'', r.code)

  unfoldable pub hv_vm_destroy : Host → K → Host × K × ℕ
  hv_vm_destroy h k =
      if not h.vm_alive
      then (h, k, hv_no_device)
      else let (r, k') = trap vm_destroy k in
        if r.code == hv_success
        then (record h { vm_alive = false; gic = none; vcpus = λ _. fresh_slot }, k', r.code)
        else (h, k', r.code)
