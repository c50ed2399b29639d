-- ===== src/Sysreg.antt =====
-- The descriptors of the system registers: what an encoding of the interface stands for and where
-- its value lives (`SysRegDesc`, src/ohv_internal.h).
pub mod Generated
pub mod Apple
pub mod Lookup
use open_hypervisor.Base.{ℕ, Bool}

-- `kind`: 0 shared, 1 banked, 2 extended, 3 debug, 5 identification, 6 raw context offset,
-- 7 shadow.
pub record SysRegDesc : Type 0 where
  pub encoding : ℕ
  pub kind : ℕ
  pub index : ℕ
  pub dirty_bit : ℕ
  pub sync_before : Bool

-- A row of a table, in the order of the initialisers.
abbrev pub desc : ℕ → ℕ → ℕ → ℕ → Bool → SysRegDesc
desc encoding kind index dirty_bit sync_before = record {
  encoding = encoding;
  kind = kind;
  index = index;
  dirty_bit = dirty_bit;
  sync_before = sync_before;
}
