-- ===== src/Vm/Memory/Laws.antt =====
-- What the memory calls hand to the kernel, and what the table of mappings says afterwards.
use open_hypervisor.Base.{
  ℕ, ◌+◌, ◌%◌, ◌^◌, ◌≤◌, ◌<◌, ◌≡◌, ◌⊎◌, refl, true, false, none, some, List, [], ◌∷◌, arith, length,
  inl, inr, Bool-cases, ◌==◌, if◌then◌else◌, ◌&&◌, ◌∙◌,
}
use open_hypervisor.Hv.{hv_success, hv_bad_argument, hv_no_device}
use open_hypervisor.Host.{Host}
use open_hypervisor.Vm.Kernel.{Trap, Request, Reply, MapItem, recording, vm_unmap}
use open_hypervisor.Vm.Maps.{max_maps, find_map, map_remember, guest_ptr}
use open_hypervisor.Vm.Maps.Laws.{IsTable, remember-IsTable, forget-IsTable, find_map-forget}
use open_hypervisor.Vm.Maps.Lookup.{guest_ptr-remember}
use open_hypervisor.Vm.Memory.{bad_range, in_spaces, map_op, hv_vm_map, hv_vm_unmap}

-- The requests, the latest first, that hand `item` to each of the spaces `asids` in turn.
abbrev pub mirrored : (MapItem → Request) → MapItem → List ℕ → List Request → List Request
mirrored op item [] log = log
mirrored op item (a ∷ asids) log = mirrored op item asids (op (record item { asid = a }) ∷ log)

in_spaces-recording :
    (answer : Request → Reply) (op : MapItem → Request) (item : MapItem) (asids : List ℕ)
    (log : List Request)
    → in_spaces (recording answer) op item asids log ≡ mirrored op item asids log
unfolding in_spaces
in_spaces-recording answer op item [] log = refl
in_spaces-recording answer op item (a ∷ asids) log =
    in_spaces-recording answer op item asids (op (record item { asid = a }) ∷ log)

-- A memory operation that the kernel accepts is handed to it once for the machine and then, if the
-- guest is a hypervisor, once for each nested space, in their order, with the same memory; one that
-- it refuses is not repeated.
pub map_op-recording :
    (answer : Request → Reply) (op : MapItem → Request) (h : Host) (log : List Request)
    (uva ipa size flags : ℕ)
    → h.vm_alive ≡ true
    → bad_range ipa size ≡ false
    → let item : MapItem = record { uva = uva; ipa = ipa; size = size; flags = flags; asid = 0 } in
      let spaces : List ℕ =
        if (answer (op item)).code == hv_success && h.vm_el2 then h.nested_asid else [] in
      map_op (recording answer) op h log uva ipa size flags
      ≡ (mirrored op item spaces (op item ∷ log), (answer (op item)).code)
unfolding map_op
map_op-recording answer op h log uva ipa size flags alive good =
    let item : MapItem = record { uva = uva; ipa = ipa; size = size; flags = flags; asid = 0 } in
    ground (arith, in_spaces-recording answer op item h.nested_asid (op item ∷ log))

module _ {K : Type 0} (trap : Trap K) where
  -- Without a virtual machine, or with a range that is empty or off its granule, nothing reaches
  -- the kernel.
  pub map_op_refused :
      (op : MapItem → Request) (h : Host) (k : K) (uva ipa size flags : ℕ)
      → (h.vm_alive ≡ false) ⊎ (bad_range ipa size ≡ true)
      → map_op trap op h k uva ipa size flags
        ≡ (k, if h.vm_alive then hv_bad_argument else hv_no_device)
  unfolding map_op
  map_op_refused op h k uva ipa size flags why = ground arith

  -- An accepted mapping changes the table alone, and a refused one changes nothing.
  hv_vm_map-maps :
      (h : Host) (k : K) (addr ipa size flags : ℕ)
      → (hv_vm_map trap h k addr ipa size flags).0 ≡ (
          if (hv_vm_map trap h k addr ipa size flags).2 == hv_success
          then record h { maps = map_remember addr ipa size h.maps }
          else h)
  unfolding hv_vm_map
  hv_vm_map-maps h k addr ipa size flags = ground arith

  -- Mapping and unmapping keep the table well formed: one record to an address, and at most
  -- sixty-four.
  pub memory-IsTable :
      (h : Host) (k : K) (addr ipa size flags : ℕ)
      → IsTable h.maps
      → IsTable (hv_vm_map trap h k addr ipa size flags).0.maps
        × IsTable (hv_vm_unmap trap h k ipa size).0.maps
  unfolding hv_vm_unmap
  memory-IsTable h k addr ipa size flags t = (
    rw (hv_vm_map-maps h k addr ipa size flags)
        (elim (Bool-cases ((hv_vm_map trap h k addr ipa size flags).2 == hv_success)) [
          | inl e ↦ rw e (remember-IsTable addr ipa size h.maps t)
          | inr e ↦ rw e t
        ]),
    forget-IsTable ipa h.maps t,
  )

  -- After an accepted mapping that starts where no mapping does and ends below 2 ^ 64, with fewer
  -- than the table's 64 records there before, the library finds every range inside it that nothing
  -- covered before at its place in the caller's memory.
  pub guest_ptr-hv_vm_map :
      (h : Host) (k : K) (addr ipa size flags off len : ℕ)
      → (hv_vm_map trap h k addr ipa size flags).2 ≡ hv_success
      → length h.maps < max_maps
      → find_map ipa h.maps ≡ none
      → guest_ptr h.maps (ipa + off) len ≡ none
      → ipa + size < 2 ^ 64
      → off + len ≤ size
      → guest_ptr (hv_vm_map trap h k addr ipa size flags).0.maps (ipa + off) len
        ≡ some ((addr + off) % 2 ^ 64)
  guest_ptr-hv_vm_map h k addr ipa size flags off len accepted room new uncovered fits inside =
      ground (
        arith,
        hv_vm_map-maps h k addr ipa size flags,
        guest_ptr-remember addr ipa size off len h.maps room new uncovered fits inside,
      )

  -- In a live machine with a well-formed table, the record of an address is dropped by an
  -- unmapping call even where the range is bad and the kernel, which is not asked, still has the
  -- memory mapped.
  pub hv_vm_unmap_refused :
      (h : Host) (k : K) (ipa size : ℕ)
      → h.vm_alive ≡ true
      → bad_range ipa size ≡ true
      → IsTable h.maps
      → ((hv_vm_unmap trap h k ipa size).2 ≡ hv_bad_argument)
        × ((hv_vm_unmap trap h k ipa size).1 ≡ k)
        × (find_map ipa (hv_vm_unmap trap h k ipa size).0.maps ≡ none)
  unfolding hv_vm_unmap
  hv_vm_unmap_refused h k ipa size alive bad t = (
    ground (arith, map_op_refused vm_unmap h k 0 ipa size 0 (inr bad)),
    ground (arith, map_op_refused vm_unmap h k 0 ipa size 0 (inr bad)),
    find_map-forget ipa ipa h.maps t.unique ∙ ground arith,
  )
