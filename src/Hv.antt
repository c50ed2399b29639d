-- ===== src/Hv.antt =====
-- Return codes (include/openhyp/ohv_core.h). A `hv_return_t` is kept as its 32-bit pattern, since
-- the kernel may answer a trap with any number.
use open_hypervisor.Base.{ℕ}

abbrev pub hv_success : ℕ
hv_success = 0

abbrev pub hv_error : ℕ
hv_error = 0xfae94001

abbrev pub hv_busy : ℕ
hv_busy = 0xfae94002

abbrev pub hv_bad_argument : ℕ
hv_bad_argument = 0xfae94003

abbrev pub hv_illegal_guest_state : ℕ
hv_illegal_guest_state = 0xfae94004

abbrev pub hv_no_resources : ℕ
hv_no_resources = 0xfae94005

abbrev pub hv_no_device : ℕ
hv_no_device = 0xfae94006

abbrev pub hv_unsupported : ℕ
hv_unsupported = 0xfae9400f

-- What a call that reports through an out-parameter answers: success with the value written, or
-- a code and nothing written.
pub data Result {ℓ} (A : Type ℓ) : Type ℓ where
  ok : A → Result A
  err : ℕ → Result A
