-- ===== src/Vm/Memory.antt =====
-- `map_op` and the three calls over it (src/ohv_vm.cpp).
pub mod Laws
use open_hypervisor.Base.{
  ℕ, ◌%◌, Bool, not, ◌||◌, Option, none, some, List, [], ◌∷◌, ◌==◌, if◌then◌else◌,
}
use open_hypervisor.Hv.{hv_success, hv_bad_argument, hv_no_resources, hv_error, Result, ok, err}
use open_hypervisor.Host.{Host, require_vm}
use open_hypervisor.Vm.Maps.{map_remember, map_forget}
use open_hypervisor.Vm.Kernel.{Trap, Request, MapItem, vm_map, vm_unmap, vm_protect}

-- `!size || (size & 0x3fff) || (ipa & 0x3ff)`.
abbrev pub bad_range : ℕ → ℕ → Bool
bad_range ipa size = size == 0 || (not (size % 0x4000 == 0) || not (ipa % 0x400 == 0))

module _ {K : Type 0} (trap : Trap K) where
  -- The same memory in each nested address space, whatever the kernel answers.
  unfoldable pub in_spaces : (MapItem → Request) → MapItem → List ℕ → K → K
  in_spaces op item [] k = k
  in_spaces op item (asid ∷ asids) k =
      in_spaces op item asids (trap (op (record item { asid = asid })) k).1

  unfoldable pub map_op : (MapItem → Request) → Host → K → ℕ → ℕ → ℕ → ℕ → K × ℕ
  unfolding require_vm
  map_op op h k uva ipa size flags =
      if not (require_vm h == hv_success)
      then (k, require_vm h)
      else if bad_range ipa size
      then (k, hv_bad_argument)
      else let item : MapItem = record {
        uva = uva;
        ipa = ipa;
        size = size;
        flags = flags;
        asid = 0;
      } in
        let (r, k') = trap (op item) k in
        if r.code == hv_success
        then if h.vm_el2 then (in_spaces op item h.nested_asid k', r.code) else (k', r.code)
        else (k', r.code)

  unfoldable pub hv_vm_map : Host → K → ℕ → ℕ → ℕ → ℕ → Host × K × ℕ
  hv_vm_map h k addr ipa size flags =
      if addr == 0
      then (h, k, hv_bad_argument)
      else let (k', r) = map_op vm_map h k addr ipa size flags in
        if r == hv_success
        then (record h { maps = map_remember addr ipa size h.maps }, k', r)
        else (h, k', r)

  unfoldable pub hv_vm_unmap : Host → K → ℕ → ℕ → Host × K × ℕ
  hv_vm_unmap h k ipa size =
      let (k', r) = map_op vm_unmap h k 0 ipa size 0 in
      (record h { maps = map_forget ipa h.maps }, k', r)

  unfoldable pub hv_vm_protect : Host → K → ℕ → ℕ → ℕ → Host × K × ℕ
  hv_vm_protect h k ipa size flags =
      let (k', r) = map_op vm_protect h k 0 ipa size flags in (h, k', r)

-- `EINVAL`.
abbrev einval : ℕ
einval = 22

-- The calls of the older interface. What the platform's `mmap` and `munmap` answer is a parameter:
-- the address of the new memory, and the error number or zero.
unfoldable pub hv_vm_allocate : (ℕ → Option ℕ) → ℕ → Bool → Result ℕ
hv_vm_allocate mmap size out =
    if not out || size == 0
    then err hv_bad_argument
    else elim (mmap size) [ none ↦ err hv_no_resources | some p ↦ ok p ]

unfoldable pub hv_vm_deallocate : (ℕ → ℕ → ℕ) → ℕ → ℕ → ℕ
hv_vm_deallocate munmap uva size =
    if uva == 0 || size == 0
    then hv_bad_argument
    else if munmap uva size == 0
    then hv_success
    else if munmap uva size == einval
    then hv_bad_argument
    else hv_error
