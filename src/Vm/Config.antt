-- ===== src/Vm/Config.antt =====
-- The configuration object (`hv_vm_config_s` and its accessors, src/ohv_vm.cpp). A handle is
-- `none` where it is the null pointer; `out` says that the out-parameter is not null.
pub mod Laws
use open_hypervisor.Base.{
  ℕ, ◌^◌, Bool, true, false, not, ◌&&◌, ◌||◌, Option, none, some, ltb, ◌==◌, if◌then◌else◌,
}
use open_hypervisor.Hv.{hv_success, hv_bad_argument, Result, ok, err}

pub record VmConfig : Type 0 where
  pub ipa_bits : ℕ
  pub granule : ℕ
  pub el2_enabled : Bool
  pub vhe_enabled : Bool
  pub isa : ℕ

abbrev pub isa_none : ℕ
isa_none = 0

abbrev pub isa_apple : ℕ
isa_apple = 3

abbrev pub isa_internal : ℕ
isa_internal = 4

-- `allocated` is the answer of the object allocator.
unfoldable pub hv_vm_config_create : Bool → Option VmConfig
hv_vm_config_create allocated =
    if allocated
    then some (record {
      ipa_bits = 0;
      granule = 0;
      el2_enabled = false;
      vhe_enabled = false;
      isa = isa_apple;
    })
    else none

unfoldable pub hv_vm_config_set_ipa_size : Option VmConfig → ℕ → Option VmConfig × ℕ
hv_vm_config_set_ipa_size none bits = (none, hv_bad_argument)
hv_vm_config_set_ipa_size (some c) bits = (some (record c { ipa_bits = bits }), hv_success)

unfoldable pub hv_vm_config_get_ipa_size : Option VmConfig → Bool → Result ℕ
hv_vm_config_get_ipa_size none out = err hv_bad_argument
hv_vm_config_get_ipa_size (some c) out = if out then ok c.ipa_bits else err hv_bad_argument

unfoldable pub hv_vm_config_get_el2_enabled : Option VmConfig → Bool → Result Bool
hv_vm_config_get_el2_enabled none out = err hv_bad_argument
hv_vm_config_get_el2_enabled (some c) out = if out then ok c.el2_enabled else err hv_bad_argument

unfoldable pub hv_vm_config_set_el2_enabled : Option VmConfig → Bool → Option VmConfig × ℕ
hv_vm_config_set_el2_enabled none en = (none, hv_bad_argument)
hv_vm_config_set_el2_enabled (some c) en = (some (record c { el2_enabled = en }), hv_success)

unfoldable pub hv_vm_config_set_vhe_enabled : Option VmConfig → Bool → Option VmConfig × ℕ
hv_vm_config_set_vhe_enabled none en = (none, hv_bad_argument)
hv_vm_config_set_vhe_enabled (some c) en =
    if en && not c.el2_enabled
    then (some c, hv_bad_argument)
    else (some (record c { vhe_enabled = en }), hv_success)

unfoldable pub hv_vm_config_get_vhe_enabled : Option VmConfig → Bool → Result Bool
hv_vm_config_get_vhe_enabled none out = err hv_bad_argument
hv_vm_config_get_vhe_enabled (some c) out = if out then ok c.vhe_enabled else err hv_bad_argument

unfoldable pub hv_vm_config_set_isa : Option VmConfig → ℕ → Option VmConfig × ℕ
hv_vm_config_set_isa none isa = (none, hv_bad_argument)
hv_vm_config_set_isa (some c) isa =
    if ltb isa_internal isa
    then (some c, hv_bad_argument)
    else (some (record c { isa = isa }), hv_success)

unfoldable pub hv_vm_config_get_isa : Option VmConfig → Bool → Result ℕ
hv_vm_config_get_isa none out = err hv_bad_argument
hv_vm_config_get_isa (some c) out = if out then ok c.isa else err hv_bad_argument

unfoldable pub hv_vm_config_get_default_ipa_granule : Bool → Result ℕ
hv_vm_config_get_default_ipa_granule out = if out then ok 0x4000 else err hv_bad_argument

unfoldable pub hv_vm_config_get_ipa_granule : Option VmConfig → Bool → Result ℕ
hv_vm_config_get_ipa_granule none out = err hv_bad_argument
hv_vm_config_get_ipa_granule (some c) out =
    if out then ok (if c.granule == 0 then 0x4000 else c.granule) else err hv_bad_argument

-- `g != 0x1000 && g != 0x4000 && g != 0x10000`, negated.
abbrev pub is_granule : ℕ → Bool
is_granule g = g == 0x1000 || (g == 0x4000 || g == 0x10000)

unfoldable pub hv_vm_config_set_ipa_granule : Option VmConfig → ℕ → Option VmConfig × ℕ
hv_vm_config_set_ipa_granule none g = (none, hv_bad_argument)
hv_vm_config_set_ipa_granule (some c) g =
    if is_granule g
    then (some (record c { granule = g }), hv_success)
    else (some c, hv_bad_argument)

abbrev pub hv_vm_config_get_el2_supported : Bool → Result Bool
hv_vm_config_get_el2_supported out = if out then ok true else err hv_bad_argument
