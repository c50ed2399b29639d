-- ===== src/Vcpu/Lifecycle/Laws.antt =====
-- Creating, destroying and cancelling vCPUs: what a call leaves in the table, for any kernel.
use open_hypervisor.Base.{
  ℕ, zero, suc, ◌+◌, ◌^◌, ◌≤◌, ◌<◌, ◌≡◌, ◌≢◌, refl, Bool, true, false, not, ◌&&◌, ◌||◌, arith,
  bit_or, none, some, List, [], ◌∷◌, leb, ◌==◌, if◌then◌else◌, Option-cases, Bool-cases, inl, inr,
}
use open_hypervisor.Base.Bits.{bit_at, bit_at-or, bit_at-one_hot, bit_at-le-one, bit_at_zero}
use open_hypervisor.Context.{Ctx, update}
use open_hypervisor.Hv.{hv_bad_argument, ok, err}
use open_hypervisor.Host.{Host, max_vcpu_ids, find_vcpu}
use open_hypervisor.Vcpu.Environment.{Environment}
use open_hypervisor.Vcpu.Slot.{VcpuSlot, fresh_slot, mark_slot_dirty}
use open_hypervisor.Vm.Kernel.{Trap, vcpu_create, vcpu_run_cancel}
use open_hypervisor.Gic.Registers.Laws.{OwnIds}
use open_hypervisor.Vcpu.Lifecycle.{
  first_unused, new_slot, exit_mask, latch_exits, hv_vcpu_create, hv_vcpu_destroy, hv_vcpus_exit,
}

-- The scan finds the lowest slot that is not in use.
first_unused_found :
    (vcpus : ℕ → VcpuSlot) (left i id : ℕ)
    → first_unused vcpus left i ≡ some id
    → (i ≤ id) × (id < i + left) × ((vcpus id).used ≡ false)
unfolding first_unused
first_unused_found vcpus zero i id found = ground arith
first_unused_found vcpus (suc left) i id found =
    ground (arith, first_unused_found vcpus left (i + 1) id)

first_unused_lowest :
    (vcpus : ℕ → VcpuSlot) (left i id j : ℕ)
    → first_unused vcpus left i ≡ some id
    → i ≤ j
    → j < id
    → (vcpus j).used ≡ true
unfolding first_unused
first_unused_lowest vcpus zero i id j found lo hi = ground arith
first_unused_lowest vcpus (suc left) i id j found lo hi = elim (Bool-cases (i == j)) [
  | inl e ↦ ground arith
  | inr e ↦ ground (arith, first_unused_lowest vcpus left (i + 1) id j)
]

new_slot_fields :
    (e : Environment) (h : Host) (id : ℕ) (mapped : Bool) (c : Ctx)
    → ((new_slot e h id mapped c).used ≡ true)
      × ((new_slot e h id mapped c).id ≡ id)
      × ((new_slot e h id mapped c).guest_at_el2 ≡ h.vm_el2)
      × ((new_slot e h id mapped c).run_count ≡ 0)
unfolding new_slot mark_slot_dirty
new_slot_fields e h id mapped c = ground arith

-- The mask of a cancellation has exactly the bits of the ids in it.
abbrev pub elem : ℕ → List ℕ → Bool
elem k [] = false
elem k (id ∷ ids) = k == id || elem k ids

exit_mask_lem :
    (ids : List ℕ) (start mask k : ℕ)
    → exit_mask ids start ≡ some mask
    → bit_at mask k ≡ (if elem k ids then 1 else bit_at start k)
unfolding exit_mask
exit_mask_lem [] start mask k found = ground arith
exit_mask_lem (id ∷ ids) start mask k found = ground (
  arith,
  exit_mask_lem ids (bit_or start (2 ^ id)) mask k,
  bit_at-or k start (2 ^ id),
  bit_at-one_hot id k,
  bit_at-le-one k start,
)

exit_mask_bounded :
    (ids : List ℕ) (start mask k : ℕ)
    → exit_mask ids start ≡ some mask
    → elem k ids ≡ true
    → k < max_vcpu_ids
unfolding exit_mask
exit_mask_bounded [] start mask k found here = ground arith
exit_mask_bounded (id ∷ ids) start mask k found here =
    ground (arith, exit_mask_bounded ids (bit_or start (2 ^ id)) mask k)

latch_exits_lem :
    (vcpus : ℕ → VcpuSlot) (ids : List ℕ) (k : ℕ)
    → latch_exits vcpus ids k
      ≡ (if elem k ids then record (vcpus k) { exit_requested = true } else vcpus k)
unfolding latch_exits
latch_exits_lem vcpus [] k = refl
latch_exits_lem vcpus (id ∷ ids) k =
    ground
      (arith, latch_exits_lem (update vcpus id (record (vcpus id) { exit_requested = true })) ids k)

abbrev pub in_range : List ℕ → Bool
in_range [] = true
in_range (id ∷ ids) = not (leb max_vcpu_ids id) && in_range ids

exit_mask-in_range :
    (ids : List ℕ) (start : ℕ)
    → in_range ids ≡ true
    → (mask : ℕ) × (exit_mask ids start ≡ some mask)
unfolding exit_mask
exit_mask-in_range [] start small = (start, refl)
exit_mask-in_range (id ∷ ids) start small =
    let (mask, found) = exit_mask-in_range ids (bit_or start (2 ^ id)) (ground arith) in
    (mask, ground arith)

exit_mask-out_of_range :
    (ids : List ℕ) (start : ℕ) → in_range ids ≡ false → exit_mask ids start ≡ none
unfolding exit_mask
exit_mask-out_of_range [] start big = ground arith
exit_mask-out_of_range (id ∷ ids) start big =
    ground (arith, exit_mask-out_of_range ids (bit_or start (2 ^ id)))

module _ {K : Type 0} (trap : Trap K) (pages : K → ℕ → Ctx) where
  -- A vCPU that is not created leaves the table and the calling thread as they were.
  pub hv_vcpu_create_refused :
      (e : Environment) (h : Host) (k : K) (out : Bool) (code : ℕ)
      → (hv_vcpu_create trap pages e h k out).2 ≡ err code
      → (hv_vcpu_create trap pages e h k out).0 ≡ h
  unfolding hv_vcpu_create
  hv_vcpu_create_refused e h k out code refused = ground arith

  -- A vCPU that is created gets the lowest slot that was not in use, for a thread that had none:
  -- the slot carries its id, has not run yet and starts at the level of the virtual machine,
  -- the thread is bound to it, and no other slot moves.
  pub hv_vcpu_create_granted :
      (e : Environment) (h : Host) (k : K) (out : Bool) (id j : ℕ)
      → (hv_vcpu_create trap pages e h k out).2 ≡ ok id
      → let h' = (hv_vcpu_create trap pages e h k out).0 in
        (h.vm_alive ≡ true)
        × (h.current ≡ none)
        × (id < max_vcpu_ids)
        × ((h.vcpus id).used ≡ false)
        × ((leb id j || (h.vcpus j).used) ≡ true)
        × (h'.current ≡ some id)
        × ((h'.vcpus id).used ≡ true)
        × ((h'.vcpus id).id ≡ id)
        × ((h'.vcpus id).guest_at_el2 ≡ h.vm_el2)
        × ((h'.vcpus id).run_count ≡ 0)
        × (h'.vcpus j ≡ (if j == id then h'.vcpus id else h.vcpus j))
  unfolding hv_vcpu_create update
  hv_vcpu_create_granted e h k out id j granted =
      elim (Option-cases (first_unused h.vcpus max_vcpu_ids 0)) [
        | inl none_left ↦ ground arith
        | inr (i, found) ↦
            let (r, k1) = trap (vcpu_create i) k in
            ground (
              arith,
              first_unused_found h.vcpus max_vcpu_ids 0 i found,
              first_unused_lowest h.vcpus max_vcpu_ids 0 i j found,
              new_slot_fields e h i (not (r.word == 0)) (pages k1 r.word),
            )
      ]

  -- Where every slot in use carries its own index as its id, that is so after a creation too.
  pub hv_vcpu_create-OwnIds :
      (e : Environment) (h : Host) (k : K) (out : Bool) (i : ℕ)
      → OwnIds h
      → ((hv_vcpu_create trap pages e h k out).0.vcpus i).used ≡ true
      → ((hv_vcpu_create trap pages e h k out).0.vcpus i).id ≡ i
  unfolding hv_vcpu_create update
  hv_vcpu_create-OwnIds e h k out i own used =
      elim (Option-cases (first_unused h.vcpus max_vcpu_ids 0)) [
        | inl none_left ↦ ground (arith, own i)
        | inr (f, found) ↦
            let (r, k1) = trap (vcpu_create f) k in
            ground (arith, own i, new_slot_fields e h f (not (r.word == 0)) (pages k1 r.word))
      ]

  -- Whatever the kernel answers, a destroyed vCPU is gone: its id finds nothing, its slot is as
  -- new, the calling thread is not bound to it, and no other slot moves.
  pub hv_vcpu_destroy_lem :
      (h : Host) (k : K) (id j : ℕ) (s : VcpuSlot)
      → find_vcpu h id ≡ some s
      → let h' = (hv_vcpu_destroy trap pages h k id).0 in
        (find_vcpu h' id ≡ none)
        × (h'.vcpus j ≡ (if j == id then fresh_slot else h.vcpus j))
        × (h'.current ≢ some id)
  unfolding hv_vcpu_destroy find_vcpu update
  hv_vcpu_destroy_lem h k id j s found = ground arith

  -- Cancelling vCPUs whose ids are all in range latches exactly those and asks the kernel for a
  -- mask with exactly their bits.
  pub hv_vcpus_exit_latches :
      (h : Host) (k : K) (ids : List ℕ) (j : ℕ)
      → in_range ids ≡ true
      → let (h', k', r) = hv_vcpus_exit trap pages h k (some ids) in
        (mask : ℕ) × (bit_at mask j ≡ (if elem j ids then 1 else 0))
        × (k' ≡ (trap (vcpu_run_cancel mask) k).1)
        × (h'.vcpus j
            ≡ (if elem j ids then record (h.vcpus j) { exit_requested = true } else h.vcpus j))
  unfolding hv_vcpus_exit
  hv_vcpus_exit_latches h k ids j small =
      let (mask, found) = exit_mask-in_range ids 0 small in
      (
        mask,
        ground (arith, exit_mask_lem ids 0 mask j found, bit_at_zero j),
        ground arith,
        ground (arith, latch_exits_lem h.vcpus ids j),
      )

  -- One id out of range and nothing is cancelled: no latch is set and the kernel is not asked.
  pub hv_vcpus_exit_refused :
      (h : Host) (k : K) (ids : List ℕ)
      → in_range ids ≡ false
      → hv_vcpus_exit trap pages h k (some ids) ≡ (h, k, hv_bad_argument)
  unfolding hv_vcpus_exit
  hv_vcpus_exit_refused h k ids big = ground (arith, exit_mask-out_of_range ids 0 big)
