-- ===== src/Caps/Registers.antt =====
-- The identification registers by their encodings (`kCapsMap`, `ohv_id_slot`, `ohv_caps_field`,
-- src/ohv_misc.cpp).
use open_hypervisor.Base.{
  ℕ, Bool, true, false, Option, none, some, List, [], ◌∷◌, ◌==◌, if◌then◌else◌,
}
use open_hypervisor.Host.{Host}
use open_hypervisor.Vm.Kernel.{Trap}
use open_hypervisor.Vm.Lifecycle.{machine_ipa_bits}
use open_hypervisor.Caps.Block.{Capabilities}
use open_hypervisor.Caps.Narrowing.{parange_field, id_reg_value}

abbrev pub midr_el1 : ℕ
midr_el1 = 0xc000

abbrev pub mpidr_el1 : ℕ
mpidr_el1 = 0xc005

abbrev pub id_slot_midr : ℕ
id_slot_midr = 18

abbrev pub id_slot_mpidr : ℕ
id_slot_mpidr = 19

-- `kCapsMap`: an encoding and the index that `hv_feature_reg_t` names it by.
abbrev pub caps_map : List (ℕ × ℕ)
caps_map =
    (0xc028, 0)
    ∷ (0xc029, 1)
    ∷ (0xc030, 2)
    ∷ (0xc031, 3)
    ∷ (0xc038, 4)
    ∷ (0xc039, 5)
    ∷ (0xc03a, 6)
    ∷ (0xc020, 7)
    ∷ (0xc021, 8)
    ∷ (0xd801, 9)
    ∷ (0xc801, 10)
    ∷ (0xd807, 11)
    ∷ []

unfoldable pub find_which : List (ℕ × ℕ) → ℕ → Option ℕ
find_which [] enc = none
find_which (e ∷ es) enc = let rest = find_which es enc in if e.0 == enc then some e.1 else rest

-- `none` for the source's −1.
unfoldable pub ohv_id_slot : ℕ → Option ℕ
ohv_id_slot enc =
    if enc == midr_el1
    then some id_slot_midr
    else if enc == mpidr_el1
    then some id_slot_mpidr
    else find_which caps_map enc

module _ {K : Type 0} (trap : Trap K) where
  -- Only the register with the address range asks for the size of the machine's.
  unfoldable pub ohv_id_reg_for : Host → K → Capabilities → ℕ → Bool → Host × K × ℕ
  ohv_id_reg_for h k c which for_config = elim (which == 4) [
    | true ↦
        let (h', k', bits) = machine_ipa_bits trap h k in
        (h', k', id_reg_value c (parange_field bits) which for_config)
    | false ↦ (h, k, id_reg_value c 0 which for_config)
  ]

  unfoldable pub ohv_caps_field : Host → K → Capabilities → ℕ → Host × K × ℕ
  ohv_caps_field h k c enc = elim (enc == midr_el1) [
    | true ↦ (h, k, 0x610f0000)
    | false ↦ elim (find_which caps_map enc) [
      | none ↦ (h, k, 0)
      | some which ↦ ohv_id_reg_for h k c which false
    ]
  ]
