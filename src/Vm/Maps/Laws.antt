-- ===== src/Vm/Maps/Laws.antt =====
-- The table as a finite map from guest physical addresses to records.
use open_hypervisor.Base.{
  ℕ, ◌≤◌, ◌<◌, ◌≡◌, refl, none, some, List, [], ◌∷◌, ◌++◌, arith, ◌==◌, if◌then◌else◌, length,
  length-append, inl, inr, Option-cases, Bool-cases, ◌∙◌, false, ltb,
}
use open_hypervisor.Host.{MapRecord}
use open_hypervisor.Vm.Maps.{
  max_maps, find_map, overwrite, map_remember, last_map, but_last, map_forget,
}

-- No two records stand at one address.
abbrev pub Unique : List MapRecord → Type 0
Unique [] = Unit
Unique (m ∷ ms) = (find_map m.ipa ms ≡ none) × Unique ms

-- The invariant of the table.
pub record IsTable (ms : List MapRecord) : Type 0 where
  pub unique : Unique ms
  pub fits : length ms ≤ max_maps

find_map-append :
    (j : ℕ) (ms : List MapRecord) (n : MapRecord)
    → find_map j (ms ++ n ∷ [])
      ≡ elim (find_map j ms) [ some m ↦ some m | none ↦ if n.ipa == j then some n else none ]
unfolding find_map
find_map-append j [] n = ground arith
find_map-append j (m ∷ ms) n = ground (arith, find_map-append j ms n)

find_map-overwrite :
    (j : ℕ) (new : MapRecord) (ms : List MapRecord) (old : MapRecord)
    → find_map new.ipa ms ≡ some old
    → find_map j (overwrite new ms) ≡ (if new.ipa == j then some new else find_map j ms)
unfolding find_map overwrite
find_map-overwrite j new [] old h = ground arith
find_map-overwrite j new (m ∷ ms) old h = ground (arith, find_map-overwrite j new ms old)

-- Remembering a mapping makes it the record of its address, and changes no other; a new address
-- is recorded only while the table has room.
pub find_map-remember :
    (uva ipa size j : ℕ) (ms : List MapRecord)
    → length ms < max_maps
    → find_map j (map_remember uva ipa size ms)
      ≡ (if ipa == j then some (record { uva = uva; ipa = ipa; size = size }) else find_map j ms)
unfolding map_remember
find_map-remember uva ipa size j ms room =
    let new : MapRecord = record { uva = uva; ipa = ipa; size = size } in
    elim (Option-cases (find_map ipa ms)) [
      | inl e ↦ rw (e, map_remember) (ground (arith, find_map-append j ms new))
      | inr (old, e) ↦ rw (e, map_remember) (find_map-overwrite j new ms old e)
    ]

length-overwrite : (new : MapRecord) (ms : List MapRecord) → length (overwrite new ms) ≡ length ms
unfolding overwrite
length-overwrite new [] = refl
length-overwrite new (m ∷ ms) = ground (arith, length-overwrite new ms)

rotate_find :
    (j : ℕ) (m : MapRecord) (ms : List MapRecord)
    → Unique (m ∷ ms)
    → find_map j (last_map m ms ∷ but_last m ms) ≡ find_map j (m ∷ ms)
unfolding find_map last_map but_last
rotate_find j m [] u = refl
rotate_find j m (n ∷ ns) u = ground (arith, rotate_find j n ns u.1)

pub find_map-forget :
    (ipa j : ℕ) (ms : List MapRecord)
    → Unique ms
    → find_map j (map_forget ipa ms) ≡ (if ipa == j then none else find_map j ms)
unfolding find_map map_forget
find_map-forget ipa j [] u = ground arith
find_map-forget ipa j (m ∷ []) u = ground arith
find_map-forget ipa j (m ∷ n ∷ ns) u =
    ground (arith, rotate_find j n ns u.1, find_map-forget ipa j (n ∷ ns) u.1)

find_map-last :
    (m : MapRecord) (ms : List MapRecord)
    → (r : MapRecord) × (find_map (last_map m ms).ipa (m ∷ ms) ≡ some r)
unfolding find_map last_map
find_map-last m [] = (m, ground arith)
find_map-last m (n ∷ ns) = elim (Option-cases (find_map (last_map n ns).ipa (m ∷ n ∷ ns))) [
  | inl e ↦ absurd (ground (arith, find_map-last n ns))
  | inr found ↦ found
]

find_map-but_last :
    (j : ℕ) (m : MapRecord) (ms : List MapRecord)
    → find_map j (m ∷ ms) ≡ none
    → find_map j (but_last m ms) ≡ none
unfolding find_map but_last
find_map-but_last j m [] h = refl
find_map-but_last j m (n ∷ ns) h = ground (arith, find_map-but_last j n ns)

find_map-last_fresh :
    (m : MapRecord) (ms : List MapRecord)
    → Unique (m ∷ ms)
    → find_map (last_map m ms).ipa (but_last m ms) ≡ none
unfolding find_map last_map but_last
find_map-last_fresh m [] u = refl
find_map-last_fresh m (n ∷ ns) u = ground (arith, find_map-last_fresh n ns u.1, find_map-last n ns)

but_last-Unique : (m : MapRecord) (ms : List MapRecord) → Unique (m ∷ ms) → Unique (but_last m ms)
unfolding but_last
but_last-Unique m [] u = tt
but_last-Unique m (n ∷ ns) u = (find_map-but_last m.ipa n ns u.0, but_last-Unique n ns u.1)

forget-Unique : (ipa : ℕ) (ms : List MapRecord) → Unique ms → Unique (map_forget ipa ms)
unfolding map_forget
forget-Unique ipa [] u = tt
forget-Unique ipa (m ∷ []) u = ground (arith, find_map-forget ipa m.ipa [] tt)
forget-Unique ipa (m ∷ n ∷ ns) u = elim (Bool-cases (m.ipa == ipa)) [
  | inl e ↦ rw (e, map_forget) (find_map-last_fresh n ns u.1, but_last-Unique n ns u.1)
  | inr e ↦
      rw (e, map_forget)
        (find_map-forget ipa m.ipa (n ∷ ns) u.1 ∙ ground arith, forget-Unique ipa (n ∷ ns) u.1)
]

length-but_last : (m : MapRecord) (ms : List MapRecord) → length (but_last m ms) ≡ length ms
unfolding but_last
length-but_last m [] = refl
length-but_last m (n ∷ ns) = omega (arith, length-but_last n ns)

length-forget : (ipa : ℕ) (ms : List MapRecord) → length (map_forget ipa ms) ≤ length ms
unfolding map_forget
length-forget ipa [] = omega arith
length-forget ipa (m ∷ []) = ground arith
length-forget ipa (m ∷ n ∷ ns) = ground (arith, length-but_last n ns, length-forget ipa (n ∷ ns))

overwrite_fresh :
    (j : ℕ) (new : MapRecord) (ms : List MapRecord)
    → find_map j ms ≡ none
    → (new.ipa == j) ≡ false
    → find_map j (overwrite new ms) ≡ none
unfolding find_map overwrite
overwrite_fresh j new [] h ne = refl
overwrite_fresh j new (m ∷ ms) h ne = ground (arith, overwrite_fresh j new ms)

overwrite-Unique : (new : MapRecord) (ms : List MapRecord) → Unique ms → Unique (overwrite new ms)
unfolding overwrite
overwrite-Unique new [] u = tt
overwrite-Unique new (m ∷ ms) u = elim (Bool-cases (m.ipa == new.ipa)) [
  | inl e ↦ rw (e, overwrite) (ground arith, u.1)
  | inr e ↦
      rw (e, overwrite)
        (overwrite_fresh m.ipa new ms u.0 (ground arith), overwrite-Unique new ms u.1)
]

append-Unique :
    (new : MapRecord) (ms : List MapRecord)
    → find_map new.ipa ms ≡ none
    → Unique ms
    → Unique (ms ++ new ∷ [])
unfolding find_map
append-Unique new [] h u = (refl, tt)
append-Unique new (m ∷ ms) h u =
    (ground (arith, find_map-append m.ipa ms new), append-Unique new ms (ground arith) u.1)

-- Both operations keep the table well formed.
pub remember-IsTable :
    (uva ipa size : ℕ) (ms : List MapRecord) → IsTable ms → IsTable (map_remember uva ipa size ms)
unfolding map_remember
remember-IsTable uva ipa size ms t =
    let new : MapRecord = record { uva = uva; ipa = ipa; size = size } in
    elim (Option-cases (find_map ipa ms)) [
      | inl e ↦ elim (Bool-cases (ltb (length ms) max_maps)) [
        | inl room ↦
            rw (e, map_remember)
              (rw room (record {
                unique = append-Unique new ms e t.unique;
                fits = ground (arith, length-append ms (new ∷ []));
              }))
        | inr full ↦ rw (e, map_remember) (rw full t)
      ]
      | inr (old, e) ↦
          rw (e, map_remember)
            (record {
              unique = overwrite-Unique new ms t.unique;
              fits = omega (arith, length-overwrite new ms, t.fits);
            })
    ]

pub forget-IsTable : (ipa : ℕ) (ms : List MapRecord) → IsTable ms → IsTable (map_forget ipa ms)
forget-IsTable ipa ms t = record {
  unique = forget-Unique ipa ms t.unique;
  fits = omega (arith, length-forget ipa ms, t.fits);
}
