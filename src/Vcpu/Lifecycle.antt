-- ===== src/Vcpu/Lifecycle.antt =====
-- Creation, destruction and cancellation of vCPUs (`hv_vcpu_create`, `hv_vcpu_destroy`,
-- `hv_vcpus_exit`, src/ohv_vcpu.cpp), against any kernel.
pub mod Laws
pub mod Guest
use open_hypervisor.Base.{
  ℕ, zero, suc, ◌+◌, ◌*◌, ◌/◌, ◌%◌, ◌^◌, Bool, true, false, not, ◌&&◌, Option, none, some, List, [],
  ◌∷◌, bit_and, bit_or, get_elem?, leb, ◌==◌, if◌then◌else◌,
}
use open_hypervisor.Base.Bits.{not64}
use open_hypervisor.Context.{Ctx, update, load64, store64}
use open_hypervisor.Context.Ro
use open_hypervisor.Context.Controls
use open_hypervisor.Context.State
use open_hypervisor.Hv.{
  hv_success, hv_error, hv_bad_argument, hv_busy, hv_no_device, hv_no_resources, Result, ok, err,
}
use open_hypervisor.Host.{Host, max_vcpu_ids, find_vcpu, put_slot}
use open_hypervisor.Vcpu.Environment.{Environment}
use open_hypervisor.Vcpu.Slot.{VcpuSlot, fresh_slot, mark_slot_dirty}
use open_hypervisor.Vm.Kernel.{
  Trap, vcpu_create, vcpu_destroy, vcpu_set_address_space, vcpu_run_cancel,
}

abbrev pub state_ver_magic : ℕ
state_ver_magic = 0x20687970

abbrev pub nested_hcr_el2 : ℕ
nested_hcr_el2 = 0x1078

abbrev pub hcr_exceptions : ℕ
hcr_exceptions = bit_or (2 ^ 5) (bit_or (2 ^ 4) (2 ^ 3))

-- `kNestedSpaces` entries, and zero for an index past the spaces that there are.
unfoldable pub ohv_nested_asid : Host → ℕ → ℕ
ohv_nested_asid h i = elim (get_elem? h.nested_asid i) [ none ↦ 0 | some asid ↦ asid ]

-- The first slot that is not in use, `left` slots from `i` on.
unfoldable pub first_unused : (ℕ → VcpuSlot) → ℕ → ℕ → Option ℕ
first_unused vcpus zero i = none
first_unused vcpus (suc left) i =
    let rest = first_unused vcpus left (i + 1) in if (vcpus i).used then rest else some i

-- HCR_EL2 of a guest hypervisor, in the order of the source.
unfoldable pub nested_hcr : Environment → Bool → ℕ → ℕ
nested_hcr e vhe hcr =
    let nested : ℕ = elim e.hcr_nested_mask [
      | none ↦ bit_or (2 ^ 42) (2 ^ 45)
      | some m ↦ m % 2 ^ 64
    ] in
    let h1 = bit_or hcr nested in
    let h2 = if vhe then bit_or h1 (2 ^ 34) else bit_and h1 (not64 (2 ^ 34)) in
    let h3 = bit_or h2 (bit_or (2 ^ 18) (2 ^ 19)) in
    let h4 = bit_or h3 hcr_exceptions in
    let h5 = if e.no_twe then h4 else bit_or h4 (2 ^ 14) in
    let h6 : ℕ = elim e.hcr_tidcp [
      | none ↦ h5
      | some t ↦ if t % 2 ^ 64 == 0 then bit_and h5 (not64 (2 ^ 20)) else bit_or h5 (2 ^ 20)
    ] in
    elim e.hcr_xmo [
      | none ↦ h6
      | some o ↦ bit_or (bit_and h6 (not64 hcr_exceptions)) (bit_and (o % 2 ^ 64) hcr_exceptions)
    ]

-- HACR_EL2.
unfoldable pub nested_hacr : Environment → ℕ
nested_hacr e =
    let a = if e.hacr_tactl0 then bit_or 0x0100000000000000 1 else 0x0100000000000000 in
    if e.trap_gxf then bit_or a (2 ^ 13) else a

unfoldable pub nested_cnthctl : Environment → ℕ → ℕ
nested_cnthctl e old = elim e.cnthctl [
  | none ↦ bit_or (bit_and old (not64 0x1fc00)) 0x1e000
  | some o ↦ o % 2 ^ 64
]

-- The pages of a guest hypervisor's vCPU: the block under `if (ohv::g_vm_el2)`.
unfoldable pub nested_controls : Environment → Bool → Ctx → Ctx
nested_controls e vhe c =
    let c1 = store64 c Controls.hcr_el2 (nested_hcr e vhe (load64 c Controls.hcr_el2)) in
    let c2 = store64 c1 Controls.hacr_el2 (nested_hacr e) in
    let c3 = store64 c2 Controls.hfgrtr_el2 (bit_or (load64 c2 Controls.hfgrtr_el2) 0x2600) in
    let c4 = store64 c3 Controls.hfgwtr_el2 (bit_or (load64 c3 Controls.hfgwtr_el2) 0x2000) in
    let c5 = store64 c4 Controls.hfgitr_el2 (bit_or (load64 c4 Controls.hfgitr_el2) 0x3f000) in
    store64 c5 Controls.cnthctl_el2 (nested_cnthctl e (load64 c5 Controls.cnthctl_el2))

unfoldable pub nested_own_words : Environment → Ctx → Ctx
nested_own_words e c =
    let c1 = store64 c nested_hcr_el2 0x80000000 in
    elim e.try_14c8 [ none ↦ c1 | some w ↦ store64 c1 0x14c8 (w % 2 ^ 64) ]

-- The slot that the kernel's pages were given, set up for the virtual machine.
unfoldable pub new_slot : Environment → Host → ℕ → Bool → Ctx → VcpuSlot
new_slot e h id mapped pages =
    let s0 : VcpuSlot = record (h.vcpus id) {
      used = true;
      mapped = mapped;
      ctx = pages;
      id = id;
      run_count = 0;
      guest_at_el2 = h.vm_el2;
    } in
    let s1 =
      mark_slot_dirty (record s0 { ctx = nested_controls e h.vm_vhe pages }) State.controls in
    let s2 : VcpuSlot = if h.vm_el2 then record s1 { ctx = nested_own_words e s1.ctx } else s0 in
    let on = store64 s2.ctx Controls.ich_hcr_el2 (bit_or (load64 s2.ctx Controls.ich_hcr_el2) 1) in
    elim h.gic [
      | none ↦ s2
      | some m ↦
          if s2.mapped
          then mark_slot_dirty (record s2 { ctx = on }) (bit_or State.gic State.controls)
          else s2
    ]

-- The nested space that a vCPU joins, or zero for none.
unfoldable pub joined_space : Environment → Host → ℕ → ℕ
unfolding ohv_nested_asid
joined_space e h id =
    if h.vm_el2 && not e.no_nested_space
    then if ohv_nested_asid h id == 0 then ohv_nested_asid h 0 else ohv_nested_asid h id
    else 0

-- The bits of the requested ids, and whether all are in range: the first loop of `hv_vcpus_exit`.
unfoldable pub exit_mask : List ℕ → ℕ → Option ℕ
exit_mask [] mask = some mask
exit_mask (id ∷ ids) mask =
    let rest = exit_mask ids (bit_or mask (2 ^ id)) in if leb max_vcpu_ids id then none else rest

-- The second loop.
unfoldable pub latch_exits : (ℕ → VcpuSlot) → List ℕ → ℕ → VcpuSlot
unfolding update
latch_exits vcpus [] = vcpus
latch_exits vcpus (id ∷ ids) =
    latch_exits (update vcpus id (record (vcpus id) { exit_requested = true })) ids

-- `pages` is the memory at the address that the kernel answers with.
module _ {K : Type 0} (trap : Trap K) (pages : K → ℕ → Ctx) where
  unfoldable pub hv_vcpu_create : Environment → Host → K → Bool → Host × K × Result ℕ
  hv_vcpu_create e h k out =
      if not out
      then (h, k, err hv_bad_argument)
      else if not h.vm_alive
      then (h, k, err hv_no_device)
      else elim h.current [
        | some t ↦ (h, k, err hv_busy)
        | none ↦ elim (first_unused h.vcpus max_vcpu_ids 0) [
          | none ↦ (h, k, err hv_no_resources)
          | some id ↦
              let (r, k1) = trap (vcpu_create id) k in
              let c = pages k1 r.word in
              let s = new_slot e h id (not (r.word == 0)) c in
              let h' : Host = record (put_slot h id s) { current = some id } in
              let asid = joined_space e h id in
              if not (r.code == hv_success)
              then (h, k1, err r.code)
              else if not (load64 c Ro.ver / 2 ^ 32 == state_ver_magic)
              then (h, (trap vcpu_destroy k1).1, err hv_error)
              else if asid == 0
              then (h', k1, ok id)
              else (h', (trap (vcpu_set_address_space asid) k1).1, ok id)
        ]
      ]

  unfoldable pub hv_vcpu_destroy : Host → K → ℕ → Host × K × ℕ
  hv_vcpu_destroy h k id = elim (find_vcpu h id) [
    | none ↦ (h, k, hv_bad_argument)
    | some s ↦
        let (r, k1) = trap vcpu_destroy k in
        let current : Option ℕ = elim h.current [
          | none ↦ none
          | some t ↦ if t == id then none else some t
        ] in
        (record (put_slot h id fresh_slot) { current = current }, k1, r.code)
  ]

  -- `none` is a null pointer with a count that is not zero.
  unfoldable pub hv_vcpus_exit : Host → K → Option (List ℕ) → Host × K × ℕ
  hv_vcpus_exit h k none = (h, k, hv_bad_argument)
  hv_vcpus_exit h k (some ids) = elim (exit_mask ids 0) [
    | none ↦ (h, k, hv_bad_argument)
    | some mask ↦
        let (r, k1) = trap (vcpu_run_cancel mask) k in
        (record h { vcpus = latch_exits h.vcpus ids }, k1, r.code)
  ]
