-- ===== src/Vm/Maps.antt =====
-- The record of what is mapped where (`g_maps`, `map_remember`, `map_forget` and `ohv_guest_ptr`
-- of src/ohv_vm.cpp). The list is the used part of the array, in its order.
pub mod Laws
pub mod Lookup
use open_hypervisor.Base.{
  ℕ, ◌+◌, ◌-◌, ◌%◌, ◌^◌, Bool, ◌&&◌, Option, none, some, List, [], ◌∷◌, ◌++◌, ltb, leb, ◌==◌,
  if◌then◌else◌, length,
}
use open_hypervisor.Host.{MapRecord}

abbrev pub max_maps : ℕ
max_maps = 64

-- The record of `ipa`, which is what the two loops over the array look for.
unfoldable pub find_map : ℕ → List MapRecord → Option MapRecord
find_map ipa [] = none
find_map ipa (m ∷ ms) = if m.ipa == ipa then some m else find_map ipa ms

-- The first record of the same address is overwritten in place.
unfoldable pub overwrite : MapRecord → List MapRecord → List MapRecord
overwrite new [] = []
overwrite new (m ∷ ms) = if m.ipa == new.ipa then new ∷ ms else m ∷ overwrite new ms

unfoldable pub map_remember : ℕ → ℕ → ℕ → List MapRecord → List MapRecord
unfolding find_map overwrite
map_remember uva ipa size ms =
    let new : MapRecord = record { uva = uva; ipa = ipa; size = size } in
    elim (find_map ipa ms) [
      | some m ↦ overwrite new ms
      | none ↦ if ltb (length ms) max_maps then ms ++ new ∷ [] else ms
    ]

-- The last record of `m ∷ ms`, and all the others.
unfoldable pub last_map : MapRecord → List MapRecord → MapRecord
last_map m [] = m
last_map m (n ∷ ns) = last_map n ns

unfoldable pub but_last : MapRecord → List MapRecord → List MapRecord
but_last m [] = []
but_last m (n ∷ ns) = m ∷ but_last n ns

-- `g_maps[i] = g_maps[--g_map_count]` at the first record of `ipa`.
unfoldable pub map_forget : ℕ → List MapRecord → List MapRecord
unfolding last_map but_last
map_forget ipa [] = []
map_forget ipa (m ∷ ms) =
    if m.ipa == ipa
    then elim ms [ [] ↦ [] | n ∷ ns ↦ last_map n ns ∷ but_last n ns ]
    else m ∷ map_forget ipa ms

-- `ipa >= m.ipa && ipa + len <= m.ipa + m.size`, in 64 bits.
unfoldable pub covers : MapRecord → ℕ → ℕ → Bool
covers m ipa len = leb m.ipa ipa && leb ((ipa + len) % 2 ^ 64) ((m.ipa + m.size) % 2 ^ 64)

-- `none` is the null pointer.
unfoldable pub guest_ptr : List MapRecord → ℕ → ℕ → Option ℕ
unfolding covers
guest_ptr [] ipa len = none
guest_ptr (m ∷ ms) ipa len =
    if covers m ipa len then some ((m.uva + (ipa - m.ipa)) % 2 ^ 64) else guest_ptr ms ipa len
