-- ===== src/Vcpu/Emulation/Shadows.antt =====
-- The counted arrays of registers that are kept for the guest: an entry is found by its number, or
-- made with the value zero while there is room (`gic_if_slot` and the loops over `ctrr` and
-- `apple_shadow`, src/ohv_vcpu.cpp).
use open_hypervisor.Base.{
  ℕ, ◌≡◌, Option, none, some, List, [], ◌∷◌, ◌++◌, leb, length, arith, ◌==◌, if◌then◌else◌,
  Option-cases, inl, inr,
}

unfoldable pub value_of : List (ℕ × ℕ) → ℕ → Option ℕ
value_of [] n = none
value_of (e ∷ es) n = let rest = value_of es n in if e.0 == n then some e.1 else rest

unfoldable pub put_value : List (ℕ × ℕ) → ℕ → ℕ → List (ℕ × ℕ)
put_value [] n v = []
put_value (e ∷ es) n v = let rest = put_value es n v in if e.0 == n then (e.0, v) ∷ es else e ∷ rest

-- The array with an entry of number `n` in it, unless `capacity` entries are used by others.
unfoldable pub with_entry : ℕ → List (ℕ × ℕ) → ℕ → Option (List (ℕ × ℕ))
with_entry capacity es n = elim (value_of es n) [
  | some v ↦ some es
  | none ↦ if leb capacity (length es) then none else some (es ++ (n, 0) ∷ [])
]

pub value_of-put_value :
    (es : List (ℕ × ℕ)) (n v old : ℕ)
    → value_of es n ≡ some old
    → value_of (put_value es n v) n ≡ some v
unfolding value_of put_value
value_of-put_value [] n v old e = ground arith
value_of-put_value (x ∷ es) n v old e = ground (arith, value_of-put_value es n v old)

value_of-append :
    (es : List (ℕ × ℕ)) (n : ℕ) → value_of es n ≡ none → value_of (es ++ (n, 0) ∷ []) n ≡ some 0
unfolding value_of
value_of-append [] n e = ground arith
value_of-append (x ∷ es) n e = ground (arith, value_of-append es n)

-- The entry is there, with the value that it had, or zero.
pub with_entry_found :
    (capacity : ℕ) (es es' : List (ℕ × ℕ)) (n : ℕ)
    → with_entry capacity es n ≡ some es'
    → (v : ℕ) × (value_of es' n ≡ some v)
unfolding with_entry
with_entry_found capacity es es' n e = elim (Option-cases (value_of es n)) [
  | inl missing ↦ (0, ground (arith, value_of-append es n missing))
  | inr (v, found) ↦ (v, ground (arith, found))
]

-- An array that has the entry is as it was.
pub with_entry_again :
    (capacity : ℕ) (es : List (ℕ × ℕ)) (n v : ℕ)
    → value_of es n ≡ some v
    → with_entry capacity es n ≡ some es
unfolding with_entry
with_entry_again capacity es n v e = ground arith
