-- ===== src/Vm/Spaces/Laws.antt =====
-- A memory call, and the same call on each of the spaces by hand (src/ohv_vm.cpp, src/ohv_misc.cpp).
use open_hypervisor.Base.{ℕ, ◌≡◌, refl, sym, ap, ◌∙◌, true, List, [], ◌∷◌, arith, if◌then◌else◌}
use open_hypervisor.Hv.{hv_success}
use open_hypervisor.Host.{Host}
use open_hypervisor.Vm.Kernel.{Trap, Request, MapItem, vm_map, vm_unmap, vm_protect}
use open_hypervisor.Vm.Memory.{in_spaces, map_op, hv_vm_map, hv_vm_unmap, hv_vm_protect}
use open_hypervisor.Vm.Spaces.{in_vm, hv_vm_map_space, hv_vm_unmap_space, hv_vm_protect_space}

-- The kernel after a call on each of the spaces in turn, whatever it answers.
abbrev pub each_space : {K : Type 0} → (ℕ → K → K × ℕ) → List ℕ → K → K
each_space call [] k = k
each_space call (a ∷ asids) k = each_space call asids (call a k).0

-- What a memory call asks for, as the call on the whole machine and as the call on one space.
pub data Change : Type 0 where
  mapping : ℕ → ℕ → Change
  unmapping : Change
  protecting : ℕ → Change

abbrev pub whole : {K : Type 0} → Trap K → Change → Host → K → ℕ → ℕ → Host × K × ℕ
whole trap (mapping addr flags) h k ipa size = hv_vm_map trap h k addr ipa size flags
whole trap unmapping h k ipa size = hv_vm_unmap trap h k ipa size
whole trap (protecting flags) h k ipa size = hv_vm_protect trap h k ipa size flags

abbrev pub by_hand : {K : Type 0} → Trap K → Change → Host → K → ℕ → ℕ → ℕ → K × ℕ
by_hand trap (mapping addr flags) h k a ipa size = hv_vm_map_space trap h k a addr ipa size flags
by_hand trap unmapping h k a ipa size = hv_vm_unmap_space trap h k a ipa size
by_hand trap (protecting flags) h k a ipa size = hv_vm_protect_space trap h k a ipa size flags

-- The spaces that a memory call reaches.
abbrev pub reached : Host → List ℕ
reached h = 0 ∷ (if h.vm_el2 then h.nested_asid else [])

module _ {K : Type 0} (trap : Trap K) where
  in_vm_alive :
      (h : Host) (k : K) (request : Request)
      → h.vm_alive ≡ true
      → (in_vm trap h k request).0 ≡ (trap request k).1
  unfolding in_vm
  in_vm_alive h k request alive = ground arith

  each_space-in_spaces :
      (op : MapItem → Request) (item : MapItem) (h : Host) (asids : List ℕ) (k : K)
      → h.vm_alive ≡ true
      → in_spaces trap op item asids k
        ≡ each_space (λ a k. in_vm trap h k (op (record item { asid = a }))) asids k
  unfolding in_spaces
  each_space-in_spaces op item h [] k alive = refl
  each_space-in_spaces op item h (a ∷ asids) k alive =
      let k' = (trap (op (record item { asid = a })) k).1 in
      each_space-in_spaces op item h asids k' alive
      ∙ ap (each_space (λ a k. in_vm trap h k (op (record item { asid = a }))) asids)
          (sym (in_vm_alive h k (op (record item { asid = a })) alive))

  accepted :
      (op : MapItem → Request) (h : Host) (k : K) (uva ipa size flags : ℕ)
      → (map_op trap op h k uva ipa size flags).1 ≡ hv_success
      → let item : MapItem = record {
        uva = uva;
        ipa = ipa;
        size = size;
        flags = flags;
        asid = 0;
      } in
        (h.vm_alive ≡ true)
        × ((map_op trap op h k uva ipa size flags).0
            ≡ in_spaces trap op item (if h.vm_el2 then h.nested_asid else []) (trap (op item) k).1)
  unfolding map_op in_spaces
  accepted op h k uva ipa size flags done = ground arith

  map_op-each_space :
      (op : MapItem → Request) (h : Host) (k : K) (uva ipa size flags : ℕ)
      → (map_op trap op h k uva ipa size flags).1 ≡ hv_success
      → let item : MapItem = record {
        uva = uva;
        ipa = ipa;
        size = size;
        flags = flags;
        asid = 0;
      } in
        (map_op trap op h k uva ipa size flags).0
        ≡ each_space (λ a k. in_vm trap h k (op (record item { asid = a }))) (reached h) k
  map_op-each_space op h k uva ipa size flags done =
      let item : MapItem = record { uva = uva; ipa = ipa; size = size; flags = flags; asid = 0 } in
      let (alive, kernel) = accepted op h k uva ipa size flags done in
      let nested : List ℕ = if h.vm_el2 then h.nested_asid else [] in
      kernel
      ∙ each_space-in_spaces op item h nested (trap (op item) k).1 alive
      ∙ ap (each_space (λ a k. in_vm trap h k (op (record item { asid = a }))) nested)
          (sym (in_vm_alive h k (op item) alive))

  map_accepted :
      (h : Host) (k : K) (addr ipa size flags : ℕ)
      → (hv_vm_map trap h k addr ipa size flags).2 ≡ hv_success
      → ((map_op trap vm_map h k addr ipa size flags).1 ≡ hv_success)
        × ((hv_vm_map trap h k addr ipa size flags).1
            ≡ (map_op trap vm_map h k addr ipa size flags).0)
  unfolding hv_vm_map
  map_accepted h k addr ipa size flags done = ground arith

  -- An accepted mapping, unmapping or protection hands the kernel what the same call on each space by
  -- hand would hand it: on the machine's own space, space 0, and then, for a guest hypervisor, on
  -- each nested one.
  pub memory-each_space :
      (c : Change) (h : Host) (k : K) (ipa size : ℕ)
      → (whole trap c h k ipa size).2 ≡ hv_success
      → (whole trap c h k ipa size).1
        ≡ each_space (λ a k. by_hand trap c h k a ipa size) (reached h) k
  unfolding hv_vm_unmap hv_vm_protect hv_vm_map_space hv_vm_unmap_space hv_vm_protect_space
  memory-each_space (mapping addr flags) h k ipa size done =
      let (accepted, kernel) = map_accepted h k addr ipa size flags done in
      kernel ∙ map_op-each_space vm_map h k addr ipa size flags accepted
  memory-each_space unmapping h k ipa size done = map_op-each_space vm_unmap h k 0 ipa size 0 done
  memory-each_space (protecting flags) h k ipa size done =
      map_op-each_space vm_protect h k 0 ipa size flags done
