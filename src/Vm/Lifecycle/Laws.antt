-- ===== src/Vm/Lifecycle/Laws.antt =====
-- Creation and destruction of the virtual machine, against any kernel.
use open_hypervisor.Base.{
  ℕ, zero, suc, ◌+◌, ◌≤◌, ◌≡◌, ◌≢◌, refl, true, false, Option, none, some, List, [], ◌∷◌, arith,
  length, length-append, inl, inr, Bool-cases, Option-cases, ◌==◌, ==_iff, ltb, if◌then◌else◌,
}
use open_hypervisor.Hv.{hv_success}
use open_hypervisor.Host.{Host}
use open_hypervisor.Vcpu.Slot.{fresh_slot}
use open_hypervisor.Vm.Config.{VmConfig}
use open_hypervisor.Vm.Kernel.{Trap, SpaceCreate, address_space_create}
use open_hypervisor.Vm.Lifecycle.{
  nested_spaces, space_request, add_space, machine_ipa_bits, nested_spaces_create, granted,
  wanted_bits, create_args, granted_isa, asks_el2, asks_vhe, hv_vm_create, hv_vm_destroy,
}

length-add_space :
    (asids : List ℕ) (asid : ℕ)
    → length (add_space asids asid)
      ≡ (if ltb (length asids) nested_spaces then length asids + 1 else length asids)
unfolding add_space
length-add_space asids asid = ground (arith, length-append asids (asid ∷ []))

add_space-full :
    (asids : List ℕ) (asid : ℕ) → length asids ≡ nested_spaces → add_space asids asid ≡ asids
unfolding add_space
add_space-full asids asid h = ground arith

module _ {K : Type 0} (trap : Trap K) where
  nested_spaces_create-bound :
      (n : ℕ) (asids : List ℕ) (k : K)
      → length asids ≤ nested_spaces
      → length (nested_spaces_create trap n asids k).0 ≤ nested_spaces
  unfolding nested_spaces_create
  nested_spaces_create-bound zero asids k h = h
  nested_spaces_create-bound (suc n) asids k h =
      elim (Bool-cases ((trap space_request k).0.code == hv_success)) [
        | inl e ↦
            rw (e, nested_spaces_create)
              (nested_spaces_create-bound n (add_space asids (trap space_request k).0.word)
                (trap space_request k).1
                (ground (arith, length-add_space asids (trap space_request k).0.word)))
        | inr e ↦ rw (e, nested_spaces_create) (h)
      ]

  -- A full array of spaces is left as it is.
  nested_spaces_create-full :
      (n : ℕ) (asids : List ℕ) (k : K)
      → length asids ≡ nested_spaces
      → (nested_spaces_create trap n asids k).0 ≡ asids
  unfolding nested_spaces_create
  nested_spaces_create-full zero asids k h = refl
  nested_spaces_create-full (suc n) asids k h =
      elim (Bool-cases ((trap space_request k).0.code == hv_success)) [
        | inl e ↦
            rw (e, nested_spaces_create)
              (rw (add_space-full asids (trap space_request k).0.word h)
                (nested_spaces_create-full n asids (trap space_request k).1 h))
        | inr e ↦ rw (e, nested_spaces_create) (refl)
      ]

  -- With a kernel that grants every space, the loop leaves as many more as it makes rounds.
  nested_spaces_create-grows :
      ((a : SpaceCreate) (k : K) → (trap (address_space_create a) k).0.code ≡ hv_success)
      → (n : ℕ) (asids : List ℕ) (k : K) → length asids + n ≤ nested_spaces
      → length (nested_spaces_create trap n asids k).0 ≡ length asids + n
  unfolding nested_spaces_create
  nested_spaces_create-grows grants zero asids k h = omega arith
  nested_spaces_create-grows grants (suc n) asids k h =
      let e : ((trap space_request k).0.code == hv_success) ≡ true = (==_iff _ _).1 (grants _ k) in
      rw (e, nested_spaces_create)
        (ground (
          arith,
          length-add_space asids (trap space_request k).0.word,
          nested_spaces_create-grows grants n (add_space asids (trap space_request k).0.word)
              (trap space_request k).1,
        ))

  -- Asking for the address size fills the cache and nothing else.
  machine_ipa_bits-ipa_bits :
      (h : Host) (k : K)
      → (machine_ipa_bits trap h k).0
        ≡ record h { ipa_bits = (machine_ipa_bits trap h k).0.ipa_bits }
  unfolding machine_ipa_bits
  machine_ipa_bits-ipa_bits h k = elim (Option-cases h.ipa_bits) [
    | inl e ↦ rw (e, machine_ipa_bits) refl
    | inr (b, e) ↦ rw (e, machine_ipa_bits) refl
  ]

  wanted_bits-ipa_bits :
      (h : Host) (k : K) (config : Option VmConfig)
      → (wanted_bits trap h k config).0
        ≡ record h { ipa_bits = (wanted_bits trap h k config).0.ipa_bits }
  unfolding wanted_bits
  wanted_bits-ipa_bits h k none = machine_ipa_bits-ipa_bits h k
  wanted_bits-ipa_bits h k (some c) = elim (Bool-cases (c.ipa_bits == 0)) [
    | inl e ↦ rw (e, wanted_bits) (machine_ipa_bits-ipa_bits h k)
    | inr e ↦ rw (e, wanted_bits) refl
  ]

  granted-fields :
      (h : Host) (k : K) (config : Option VmConfig)
      → (granted trap h k config).0 ≡ record h {
        vm_alive = true;
        vm_isa = granted_isa config;
        vm_el2 = asks_el2 config;
        vm_vhe = asks_vhe config;
        nested_asid =
            if asks_el2 config
            then (nested_spaces_create trap nested_spaces h.nested_asid k).0
            else h.nested_asid;
      }
  unfolding granted
  granted-fields h k config = ground arith

  -- A virtual machine that the kernel does not grant, or that exists already, leaves the host as
  -- it was but for the cached address size.
  pub hv_vm_create_refused :
      (h : Host) (k : K) (config : Option VmConfig)
      → (hv_vm_create trap h k config).2 ≢ hv_success
      → record (hv_vm_create trap h k config).0 { ipa_bits = none } ≡ record h { ipa_bits = none }
  unfolding hv_vm_create
  hv_vm_create_refused h k config refused = ground (arith, wanted_bits-ipa_bits h k config)

  -- A granted one is alive with the instruction set and the levels that its configuration asks
  -- for, and with at most eight nested spaces; the table of mappings, the vCPUs, the interrupt
  -- controller and the calling thread's vCPU are as before.
  pub hv_vm_create_granted :
      (h : Host) (k : K) (config : Option VmConfig)
      → (hv_vm_create trap h k config).2 ≡ hv_success
      → length h.nested_asid ≤ nested_spaces
      → let h' = (hv_vm_create trap h k config).0 in
        (h.vm_alive ≡ false)
        × (h'.vm_alive ≡ true)
        × (h'.vm_isa ≡ granted_isa config)
        × (h'.vm_el2 ≡ asks_el2 config)
        × (h'.vm_vhe ≡ asks_vhe config)
        × (length h'.nested_asid ≤ nested_spaces)
        × (h'.maps ≡ h.maps)
        × (h'.vcpus ≡ h.vcpus)
        × (h'.gic ≡ h.gic)
        × (h'.current ≡ h.current)
  unfolding hv_vm_create
  hv_vm_create_granted h k config granted fits =
      let (h', k', bits) = wanted_bits trap h k config in
      let k'' = (trap (create_args config bits) k').1 in
      ground (
        arith,
        wanted_bits-ipa_bits h k config,
        granted-fields h' k'' config,
        nested_spaces_create-bound nested_spaces h'.nested_asid k'',
      )

  -- A destroyed virtual machine is gone with its vCPUs and its interrupt controller, and a refused
  -- destruction changes nothing.
  pub hv_vm_destroy_lem :
      (h : Host) (k : K)
      → let (h', k', r) = hv_vm_destroy trap h k in
        h' ≡ (
          if r == hv_success
          then record h { vm_alive = false; gic = none; vcpus = λ _. fresh_slot }
          else h)
  unfolding hv_vm_destroy
  hv_vm_destroy_lem h k = ground arith

  -- A second guest hypervisor in one process gets none of its own nested spaces: after eight were
  -- made for the first, destroying that machine and creating another with EL2 leaves the eight old
  -- ones in the table.
  pub hv_vm_create_stale_spaces :
      (h : Host) (k k' : K) (config : Option VmConfig)
      → length h.nested_asid ≡ nested_spaces
      → (hv_vm_create trap (hv_vm_destroy trap h k).0 k' config).2 ≡ hv_success
      → (hv_vm_create trap (hv_vm_destroy trap h k).0 k' config).0.nested_asid ≡ h.nested_asid
  unfolding hv_vm_create
  hv_vm_create_stale_spaces h k k' config full granted =
      let gone = (hv_vm_destroy trap h k).0 in
      let (h', k1, bits) = wanted_bits trap gone k' config in
      let k'' = (trap (create_args config bits) k1).1 in
      ground (
        arith,
        hv_vm_destroy_lem h k,
        wanted_bits-ipa_bits gone k' config,
        granted-fields h' k'' config,
        nested_spaces_create-full nested_spaces h.nested_asid k'',
      )

  -- With a kernel that grants every address space, a granted guest hypervisor that finds none in
  -- the table gets all eight.
  pub hv_vm_create_spaces :
      ((a : SpaceCreate) (k : K) → (trap (address_space_create a) k).0.code ≡ hv_success)
      → (h : Host) (k : K) (config : Option VmConfig)
      → (hv_vm_create trap h k config).2 ≡ hv_success
      → asks_el2 config ≡ true
      → h.nested_asid ≡ []
      → length (hv_vm_create trap h k config).0.nested_asid ≡ nested_spaces
  unfolding hv_vm_create
  hv_vm_create_spaces grants h k config granted el2 none_yet =
      let (h', k', bits) = wanted_bits trap h k config in
      let k'' = (trap (create_args config bits) k').1 in
      ground (
        arith,
        wanted_bits-ipa_bits h k config,
        granted-fields h' k'' config,
        nested_spaces_create-grows grants nested_spaces [] k'',
      )
