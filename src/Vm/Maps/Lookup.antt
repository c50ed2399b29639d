-- ===== src/Vm/Maps/Lookup.antt =====
-- What `ohv_guest_ptr` answers from the table.
use open_hypervisor.Base.{
  ℕ, ◌+◌, ◌-◌, ◌%◌, ◌^◌, ◌≤◌, ◌<◌, ◌≡◌, ◌⊎◌, inl, inr, some, none, List, [], ◌∷◌, ◌++◌, arith,
  Bool-cases, true, refl, length, ◌∙◌, lt→ltb,
}
use open_hypervisor.Host.{MapRecord}
use open_hypervisor.Vm.Maps.{find_map, map_remember, guest_ptr, max_maps, covers}

-- `m` is a record of the table.
abbrev pub Holds : MapRecord → List MapRecord → Type 0
Holds m [] = ⊥
Holds m (n ∷ ns) = (m ≡ n) ⊎ Holds m ns

-- No record runs past the end of the address space.
abbrev pub InSpace : List MapRecord → Type 0
InSpace [] = Unit
InSpace (m ∷ ms) = (m.ipa + m.size < 2 ^ 64) × InSpace ms

-- The bytes from `ipa` to `ipa + len` lie in the mapping `m`.
abbrev pub Inside : MapRecord → ℕ → ℕ → Type 0
Inside m ipa len = (m.ipa ≤ ipa) × (ipa + len ≤ m.ipa + m.size)

covers-Inside :
    (m : MapRecord) (ipa len : ℕ)
    → m.ipa + m.size < 2 ^ 64
    → ipa + len < 2 ^ 64
    → covers m ipa len ≡ true
    → Inside m ipa len
unfolding covers
covers-Inside m ipa len fits lt e = ground arith

Inside-covers :
    (m : MapRecord) (ipa len : ℕ)
    → m.ipa + m.size < 2 ^ 64
    → ipa + len < 2 ^ 64
    → Inside m ipa len
    → covers m ipa len ≡ true
unfolding covers
Inside-covers m ipa len fits lt e = ground arith

alone :
    (uva ipa size off len : ℕ)
    → ipa + size < 2 ^ 64
    → off + len ≤ size
    → guest_ptr (record { uva = uva; ipa = ipa; size = size } ∷ []) (ipa + off) len
      ≡ some ((uva + off) % 2 ^ 64)
unfolding guest_ptr
alone uva ipa size off len fits inside = ground arith

-- Where no mapping and not the range itself runs past the end of the address space, a pointer is
-- handed out only for a range inside one mapping, and is the place of that range in the
-- mapping's memory.
pub guest_ptr_sound :
    (ms : List MapRecord) (ipa len p : ℕ)
    → InSpace ms
    → ipa + len < 2 ^ 64
    → guest_ptr ms ipa len ≡ some p
    → (m : MapRecord) × Holds m ms × Inside m ipa len × (p ≡ (m.uva + (ipa - m.ipa)) % 2 ^ 64)
unfolding guest_ptr
guest_ptr_sound [] ipa len p sp lt h = ground arith
guest_ptr_sound (m ∷ ms) ipa len p sp lt h = elim (Bool-cases (covers m ipa len)) [
  | inl e ↦ (m, inl refl, covers-Inside m ipa len sp.0 lt e, ground arith)
  | inr e ↦
      let (n, held, inside, place) =
        guest_ptr_sound ms ipa len p sp.1 lt (rw (e, guest_ptr) at h) in
      (n, inr held, inside, place)
]

-- Where no mapping and not the range itself runs past the end of the address space, and no
-- pointer is handed out for the range, no mapping of the table holds it.
pub guest_ptr_complete :
    (ms : List MapRecord) (ipa len : ℕ)
    → InSpace ms
    → ipa + len < 2 ^ 64
    → guest_ptr ms ipa len ≡ none
    → (m : MapRecord) → Holds m ms
    → ¬ Inside m ipa len
unfolding guest_ptr
guest_ptr_complete [] ipa len sp lt h m held = absurd held
guest_ptr_complete (n ∷ ns) ipa len sp lt h m (inl same) =
    λ inside. ground (arith, inside, Inside-covers n ipa len sp.0 lt)
guest_ptr_complete (n ∷ ns) ipa len sp lt h m (inr held) =
    guest_ptr_complete ns ipa len sp.1 lt (ground arith) m held

-- A range that wraps round the end of the address space is not refused: where its wrapped end
-- falls at or below the end of the mapping, a pointer to its start is handed out, although the
-- range runs past the mapping.
pub guest_ptr_wraps :
    (m : MapRecord) (ms : List MapRecord) (ipa len : ℕ)
    → m.ipa + m.size < 2 ^ 64
    → m.ipa ≤ ipa
    → 2 ^ 64 ≤ ipa + len
    → ipa + len ≤ 2 ^ 64 + m.ipa + m.size
    → (guest_ptr (m ∷ ms) ipa len ≡ some ((m.uva + (ipa - m.ipa)) % 2 ^ 64)) × ¬ Inside m ipa len
unfolding guest_ptr
guest_ptr_wraps m ms ipa len fits above wraps low = (ground arith, λ inside. omega arith)

guest_ptr-append :
    (uva ipa size q len : ℕ) (ms : List MapRecord)
    → guest_ptr ms q len ≡ none
    → guest_ptr (ms ++ record { uva = uva; ipa = ipa; size = size } ∷ []) q len
      ≡ guest_ptr (record { uva = uva; ipa = ipa; size = size } ∷ []) q len
unfolding guest_ptr
guest_ptr-append uva ipa size q len [] h = refl
guest_ptr-append uva ipa size q len (m ∷ ms) h =
    ground (arith, guest_ptr-append uva ipa size q len ms)

-- After a new mapping is remembered, each range inside it that no earlier mapping covered is found
-- at its place in the new memory.
pub guest_ptr-remember :
    (uva ipa size off len : ℕ) (ms : List MapRecord)
    → length ms < max_maps
    → find_map ipa ms ≡ none
    → guest_ptr ms (ipa + off) len ≡ none
    → ipa + size < 2 ^ 64
    → off + len ≤ size
    → guest_ptr (map_remember uva ipa size ms) (ipa + off) len ≡ some ((uva + off) % 2 ^ 64)
unfolding map_remember
guest_ptr-remember uva ipa size off len ms room new uncovered fits inside =
    rw (new, map_remember)
      (rw (lt→ltb (length ms) max_maps room) (
        guest_ptr-append uva ipa size (ipa + off) len ms uncovered
        ∙ alone uva ipa size off len fits inside))
