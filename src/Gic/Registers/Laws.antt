-- ===== src/Gic/Registers/Laws.antt =====
-- What a register reads after a write, for the frames and for the per-CPU banks.
use open_hypervisor.Base.{
  ℕ, ◌≡◌, true, not, ◌&&◌, some, List, [], ◌∷◌, arith, get_elem?, ◌==◌, if◌then◌else◌, Option-cases,
  Bool-cases, inl, inr,
}
use open_hypervisor.Hv.{hv_success, ok}
use open_hypervisor.Host.{Host, find_vcpu}
use open_hypervisor.Gic.Model.{gicd_typer}
use open_hypervisor.Gic.Registers.{
  sparse_slot, icc_encodings, hv_gic_get_distributor_reg, hv_gic_set_distributor_reg,
  hv_gic_get_icc_reg, hv_gic_set_icc_reg,
}

-- The distributor is a store of words: a successful write to a register other than GICD_TYPER is
-- what that register reads from then on, and no write changes any other register.
pub get_distributor_reg-set :
    (h : Host) (reg reg' value : ℕ)
    → let (h', r) = hv_gic_set_distributor_reg h reg value in
      hv_gic_get_distributor_reg h' reg' true ≡ (
        if r == hv_success && (reg == reg' && not (reg == gicd_typer))
        then ok value
        else hv_gic_get_distributor_reg h reg' true)
unfolding hv_gic_get_distributor_reg hv_gic_set_distributor_reg
get_distributor_reg-set h reg reg' value = ground arith

-- A slot of a table holds the encoding that was looked up.
pub get_elem?-sparse_slot :
    (enc i : ℕ) (table : List ℕ) → sparse_slot enc table ≡ some i → get_elem? table i ≡ some enc
unfolding sparse_slot
get_elem?-sparse_slot enc i [] h = ground arith
get_elem?-sparse_slot enc i (t ∷ table) h = elim (Bool-cases (t == enc)) [
  | inl e ↦ ground arith
  | inr e ↦ elim (Option-cases (sparse_slot enc table)) [
    | inl none_left ↦ ground arith
    | inr (j, found) ↦ ground (arith, get_elem?-sparse_slot enc j table found)
  ]
]

-- Two encodings never share a slot.
pub sparse_slot_injective :
    (a b i : ℕ) (table : List ℕ)
    → sparse_slot a table ≡ some i
    → sparse_slot b table ≡ some i
    → a ≡ b
sparse_slot_injective a b i table p q =
    ground (arith, get_elem?-sparse_slot a i table p, get_elem?-sparse_slot b i table q)

-- The slots of the table carry their own index.
abbrev pub OwnIds : Host → Type 0
OwnIds h = (i : ℕ) → (h.vcpus i).used ≡ true → (h.vcpus i).id ≡ i

-- Where slots carry their own index, a CPU-interface register is private to its vCPU: a
-- successful write is what that register of that vCPU reads from then on, and no write changes
-- another register or another vCPU's.
pub get_icc_reg-set :
    (h : Host) (id id' reg reg' value : ℕ)
    → OwnIds h
    → let (h', r) = hv_gic_set_icc_reg h id reg value in
      hv_gic_get_icc_reg h' id' reg' true ≡ (
        if r == hv_success && (id == id' && reg == reg')
        then ok value
        else hv_gic_get_icc_reg h id' reg' true)
unfolding hv_gic_get_icc_reg hv_gic_set_icc_reg find_vcpu
get_icc_reg-set h id id' reg reg' value own = elim (Option-cases (sparse_slot reg icc_encodings)) [
  | inl e ↦ ground (arith, own id, own id')
  | inr (i, e) ↦ elim (Option-cases (sparse_slot reg' icc_encodings)) [
    | inl e' ↦ ground (arith, own id, own id')
    | inr (j, e') ↦
        ground (arith, own id, own id', sparse_slot_injective reg reg' i icc_encodings e)
  ]
]
