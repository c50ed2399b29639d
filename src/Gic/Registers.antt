-- ===== src/Gic/Registers.antt =====
-- Reads and writes of the controller's registers (`hv_gic_get_*_reg`, `hv_gic_set_*_reg`,
-- src/ohv_gic.cpp). `out` says that the out-parameter is not null.
pub mod Ich
pub mod Laws
use open_hypervisor.Base.{
  ℕ, zero, suc, ◌+◌, ◌*◌, ◌/◌, ◌%◌, ◌^◌, Bool, true, false, not, ◌||◌, Option, none, some, List, [],
  ◌∷◌, leb, ◌==◌, if◌then◌else◌,
}
use open_hypervisor.Context.{update, Ctx}
use open_hypervisor.Context.State
use open_hypervisor.Hv.{hv_success, hv_bad_argument, hv_no_device, Result, ok, err}
use open_hypervisor.Host.{Host, find_vcpu, put_slot}
use open_hypervisor.Vcpu.Slot.{VcpuSlot, mark_slot_dirty}
use open_hypervisor.Gic.Model.{
  GicModel, dist_slots, redist_slots, msi_slots, modelled_cpus, redist_size, gicd_typer,
}

-- `none` where the source answers false.
unfoldable pub frame_slot : ℕ → ℕ → Option ℕ
frame_slot offset slots =
    if not (offset % 4 == 0) || leb slots (offset / 4) then none else some (offset / 4)

-- The index of the first entry of the table that is `enc`.
unfoldable pub sparse_slot : ℕ → List ℕ → Option ℕ
sparse_slot enc [] = none
sparse_slot enc (t ∷ table) =
    let later : Option ℕ = elim (sparse_slot enc table) [ none ↦ none | some i ↦ some (suc i) ] in
    if t == enc then some 0 else later

abbrev pub icc_encodings : List ℕ
icc_encodings =
    0xc230 ∷ 0xc643 ∷ 0xc644 ∷ 0xc648 ∷ 0xc65b ∷ 0xc663 ∷ 0xc664 ∷ 0xc665 ∷ 0xc666 ∷ 0xc667 ∷ 0xe64d
    ∷ []

abbrev pub icv_encodings : List ℕ
icv_encodings =
    0xc230 ∷ 0xc643 ∷ 0xc644 ∷ 0xc648 ∷ 0xc65b ∷ 0xc663 ∷ 0xc664 ∷ 0xc665 ∷ 0xc666 ∷ 0xc667 ∷ []

-- `m->bank[i][j] = v`.
unfoldable pub update_bank : (ℕ → ℕ → ℕ) → ℕ → ℕ → ℕ → ℕ → ℕ → ℕ
unfolding update
update_bank bank i j v = update bank i (update (bank i) j v)

unfoldable pub hv_gic_get_distributor_reg : Host → ℕ → Bool → Result ℕ
unfolding frame_slot
hv_gic_get_distributor_reg h reg out = elim h.gic [
  | none ↦ err hv_no_device
  | some m ↦ if not out then err hv_no_device else elim (frame_slot reg dist_slots) [
    | none ↦ err hv_bad_argument
    | some slot ↦ ok (m.dist slot)
  ]
]

unfoldable pub hv_gic_set_distributor_reg : Host → ℕ → ℕ → Host × ℕ
unfolding frame_slot update
hv_gic_set_distributor_reg h reg value = elim h.gic [
  | none ↦ (h, hv_no_device)
  | some m ↦ elim (frame_slot reg dist_slots) [
    | none ↦ (h, hv_bad_argument)
    | some slot ↦
        if slot == gicd_typer / 4
        then (h, hv_success)
        else (record h { gic = some (record m { dist = update m.dist slot value }) }, hv_success)
  ]
]

-- `GicModel *m = gic_or_null(); VcpuSlot *s = vcpu_slot(id); if (!m || !s || ...) return
-- HV_NO_DEVICE; ...`.
abbrev pub with_cpu {ℓ} : {A : Type ℓ} → Host → ℕ → Bool → A → (GicModel → VcpuSlot → A) → A
with_cpu h id given refused f = elim h.gic [
  | none ↦ refused
  | some m ↦ elim (find_vcpu h id) [ none ↦ refused | some s ↦ if given then f m s else refused ]
]

unfoldable pub hv_gic_get_redistributor_base : Host → ℕ → Bool → Result ℕ
hv_gic_get_redistributor_base h id out =
    with_cpu h id out (err hv_no_device)
      (λ m s. ok ((m.cfg.redistributor_base + s.id * redist_size) % 2 ^ 64))

unfoldable pub hv_gic_get_redistributor_reg : Host → ℕ → ℕ → Bool → Result ℕ
unfolding frame_slot
hv_gic_get_redistributor_reg h id reg out = with_cpu h id out (err hv_no_device) λ m s.
    if leb modelled_cpus s.id then err hv_bad_argument else elim (frame_slot reg redist_slots) [
      | none ↦ err hv_bad_argument
      | some slot ↦ ok (m.redist s.id slot)
    ]

unfoldable pub hv_gic_set_redistributor_reg : Host → ℕ → ℕ → ℕ → Host × ℕ
unfolding frame_slot update_bank mark_slot_dirty
hv_gic_set_redistributor_reg h id reg value =
    with_cpu h id true (h, hv_no_device)
      λ m s.
        if leb modelled_cpus s.id
        then (h, hv_bad_argument)
        else elim (frame_slot reg redist_slots) [
          | none ↦ (h, hv_bad_argument)
          | some slot ↦ (
            put_slot
                (record h {
                  gic = some (record m { redist = update_bank m.redist s.id slot value });
                })
                id (mark_slot_dirty s State.gic),
            hv_success,
          )
        ]

unfoldable pub hv_gic_get_icc_reg : Host → ℕ → ℕ → Bool → Result ℕ
hv_gic_get_icc_reg h id reg out = with_cpu h id out (err hv_no_device) λ m s.
    if leb modelled_cpus s.id then err hv_bad_argument else elim (sparse_slot reg icc_encodings) [
      | none ↦ err hv_bad_argument
      | some slot ↦ ok (m.icc s.id slot)
    ]

unfoldable pub hv_gic_set_icc_reg : Host → ℕ → ℕ → ℕ → Host × ℕ
unfolding update_bank mark_slot_dirty
hv_gic_set_icc_reg h id reg value =
    with_cpu h id true (h, hv_no_device)
      λ m s.
        if leb modelled_cpus s.id
        then (h, hv_bad_argument)
        else elim (sparse_slot reg icc_encodings) [
          | none ↦ (h, hv_bad_argument)
          | some slot ↦ (
            put_slot
                (record h { gic = some (record m { icc = update_bank m.icc s.id slot value }) }) id
                (mark_slot_dirty s State.gic),
            hv_success,
          )
        ]

unfoldable pub hv_gic_get_icv_reg : Host → ℕ → ℕ → Bool → Result ℕ
hv_gic_get_icv_reg h id reg out = with_cpu h id out (err hv_no_device) λ m s.
    if leb modelled_cpus s.id then err hv_bad_argument else elim (sparse_slot reg icv_encodings) [
      | none ↦ err hv_bad_argument
      | some slot ↦ ok (m.icv s.id slot)
    ]

unfoldable pub hv_gic_set_icv_reg : Host → ℕ → ℕ → ℕ → Host × ℕ
unfolding update_bank mark_slot_dirty
hv_gic_set_icv_reg h id reg value =
    with_cpu h id true (h, hv_no_device)
      λ m s.
        if leb modelled_cpus s.id
        then (h, hv_bad_argument)
        else elim (sparse_slot reg icv_encodings) [
          | none ↦ (h, hv_bad_argument)
          | some slot ↦ (
            put_slot
                (record h { gic = some (record m { icv = update_bank m.icv s.id slot value }) }) id
                (mark_slot_dirty s State.gic),
            hv_success,
          )
        ]

unfoldable pub hv_gic_get_msi_reg : Host → ℕ → Bool → Result ℕ
unfolding frame_slot
hv_gic_get_msi_reg h reg out = elim h.gic [
  | none ↦ err hv_no_device
  | some m ↦ if not out then err hv_no_device else elim (frame_slot reg msi_slots) [
    | none ↦ err hv_bad_argument
    | some slot ↦ ok (m.msi slot)
  ]
]

unfoldable pub hv_gic_set_msi_reg : Host → ℕ → ℕ → Host × ℕ
unfolding frame_slot update
hv_gic_set_msi_reg h reg value = elim h.gic [
  | none ↦ (h, hv_no_device)
  | some m ↦ elim (frame_slot reg msi_slots) [
    | none ↦ (h, hv_bad_argument)
    | some slot ↦ (record h { gic = some (record m { msi = update m.msi slot value }) }, hv_success)
  ]
]
