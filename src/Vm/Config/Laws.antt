-- ===== src/Vm/Config/Laws.antt =====
-- What the accessors of a configuration keep, over any sequence of calls.
use open_hypervisor.Base.{
  ℕ, ◌≤◌, ◌≡◌, ◌≢◌, ◌⊎◌, Bool, true, false, Option, some, none, List, [], ◌∷◌, arith, refl,
  Bool-cases, inl, inr, ltb, not, ◌&&◌,
}
use open_hypervisor.Hv.{hv_success, ok}
use open_hypervisor.Vm.Config.{
  VmConfig, is_granule, isa_internal, hv_vm_config_set_ipa_size, hv_vm_config_set_el2_enabled,
  hv_vm_config_set_vhe_enabled, hv_vm_config_set_isa, hv_vm_config_set_ipa_granule,
  hv_vm_config_get_ipa_granule,
}

-- One call of a setter.
pub data Setting : Type 0 where
  ipa_size granule isa : ℕ → Setting
  el2 vhe : Bool → Setting

unfoldable pub apply : Option VmConfig → Setting → Option VmConfig × ℕ
apply c (ipa_size n) = hv_vm_config_set_ipa_size c n
apply c (granule n) = hv_vm_config_set_ipa_granule c n
apply c (isa n) = hv_vm_config_set_isa c n
apply c (el2 b) = hv_vm_config_set_el2_enabled c b
apply c (vhe b) = hv_vm_config_set_vhe_enabled c b

unfoldable pub apply_all : Option VmConfig → List Setting → Option VmConfig
unfolding apply
apply_all c [] = c
apply_all c (s ∷ ss) = apply_all (apply c s).0 ss

-- What a create request may carry: a granule that is one of three or left to the default, and
-- an instruction set that exists.
abbrev pub IsSound : Option VmConfig → Type 0
IsSound none = Unit
IsSound (some c) =
    ((c.granule ≡ 0) ⊎ ((c.granule ≡ 0x1000) ⊎ ((c.granule ≡ 0x4000) ⊎ (c.granule ≡ 0x10000))))
    × (c.isa ≤ isa_internal)

apply-IsSound : (c : Option VmConfig) (s : Setting) → IsSound c → IsSound (apply c s).0
unfolding apply hv_vm_config_set_ipa_size hv_vm_config_set_el2_enabled hv_vm_config_set_vhe_enabled
    hv_vm_config_set_isa hv_vm_config_set_ipa_granule
apply-IsSound none (ipa_size n) h = tt
apply-IsSound none (granule n) h = tt
apply-IsSound none (isa n) h = tt
apply-IsSound none (el2 b) h = tt
apply-IsSound none (vhe b) h = tt
apply-IsSound (some c) (ipa_size n) h = h
apply-IsSound (some c) (granule n) h = elim (Bool-cases (is_granule n)) [
  | inl e ↦ rw (e, hv_vm_config_set_ipa_granule) (ground arith)
  | inr e ↦ rw (e, hv_vm_config_set_ipa_granule) h
]
apply-IsSound (some c) (isa n) h = elim (Bool-cases (ltb isa_internal n)) [
  | inl e ↦ rw (e, hv_vm_config_set_isa) h
  | inr e ↦ rw (e, hv_vm_config_set_isa) (h.0, ground arith)
]
apply-IsSound (some c) (el2 b) h = h
apply-IsSound (some c) (vhe b) h = elim (Bool-cases (b && not c.el2_enabled)) [
  | inl e ↦ rw (e, hv_vm_config_set_vhe_enabled) h
  | inr e ↦ rw (e, hv_vm_config_set_vhe_enabled) h
]

-- A configuration whose granule and instruction set the kernel knows stays such a one over every
-- sequence of setter calls.
pub apply_all-IsSound :
    (c : Option VmConfig) (ss : List Setting) → IsSound c → IsSound (apply_all c ss)
unfolding apply_all
apply_all-IsSound c [] h = h
apply_all-IsSound c (s ∷ ss) h = apply_all-IsSound (apply c s).0 ss (apply-IsSound c s h)

-- The host extensions are on only where guest EL2 is.
abbrev pub VheNeedsEl2 : Option VmConfig → Type 0
VheNeedsEl2 none = Unit
VheNeedsEl2 (some c) = (c.vhe_enabled ≡ false) ⊎ (c.el2_enabled ≡ true)

-- Every setter call but one that turns EL2 off keeps the host extensions tied to EL2.
pub apply-VheNeedsEl2 :
    (c : Option VmConfig) (s : Setting) → s ≢ el2 false → VheNeedsEl2 c → VheNeedsEl2 (apply c s).0
unfolding apply hv_vm_config_set_ipa_size hv_vm_config_set_el2_enabled hv_vm_config_set_vhe_enabled
    hv_vm_config_set_isa hv_vm_config_set_ipa_granule
apply-VheNeedsEl2 none (ipa_size n) ne h = tt
apply-VheNeedsEl2 none (granule n) ne h = tt
apply-VheNeedsEl2 none (isa n) ne h = tt
apply-VheNeedsEl2 none (el2 b) ne h = tt
apply-VheNeedsEl2 none (vhe b) ne h = tt
apply-VheNeedsEl2 (some c) (ipa_size n) ne h = h
apply-VheNeedsEl2 (some c) (granule n) ne h = elim (Bool-cases (is_granule n)) [
  | inl e ↦ rw (e, hv_vm_config_set_ipa_granule) h
  | inr e ↦ rw (e, hv_vm_config_set_ipa_granule) h
]
apply-VheNeedsEl2 (some c) (isa n) ne h = elim (Bool-cases (ltb isa_internal n)) [
  | inl e ↦ rw (e, hv_vm_config_set_isa) h
  | inr e ↦ rw (e, hv_vm_config_set_isa) h
]
apply-VheNeedsEl2 (some c) (el2 true) ne h = inr refl
apply-VheNeedsEl2 (some c) (el2 false) ne h = absurd (ne refl)
apply-VheNeedsEl2 (some c) (vhe b) ne h = elim (Bool-cases (b && not c.el2_enabled)) [
  | inl e ↦ rw (e, hv_vm_config_set_vhe_enabled) h
  | inr e ↦ rw (e, hv_vm_config_set_vhe_enabled) (ground arith)
]

-- Turning EL2 off where the host extensions are on succeeds, and leaves them on without it.
pub disable_el2_keeps_vhe :
    (c : VmConfig)
    → c.vhe_enabled ≡ true
    → ((apply (some c) (el2 false)).1 ≡ hv_success) × ¬ VheNeedsEl2 (apply (some c) (el2 false)).0
unfolding apply hv_vm_config_set_el2_enabled
disable_el2_keeps_vhe c on = (refl, λ tied. ground arith)

-- A granule that was set with success is the one read back.
pub get_ipa_granule-set :
    (c : VmConfig) (g : ℕ)
    → (hv_vm_config_set_ipa_granule (some c) g).1 ≡ hv_success
    → hv_vm_config_get_ipa_granule (hv_vm_config_set_ipa_granule (some c) g).0 true ≡ ok g
unfolding hv_vm_config_set_ipa_granule hv_vm_config_get_ipa_granule
get_ipa_granule-set c g h = elim (Bool-cases (is_granule g)) [
  | inl e ↦ rw (e, hv_vm_config_set_ipa_granule) (ground arith)
  | inr e ↦ absurd (ground arith)
]
