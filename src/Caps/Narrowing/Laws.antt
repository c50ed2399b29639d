-- ===== src/Caps/Narrowing/Laws.antt =====
-- The address range that a guest is told (`parange_field`, src/ohv_misc.cpp).
use open_hypervisor.Base.{ℕ, ◌==◌, if◌then◌else◌}

-- The sizes that PARange names.
abbrev pub pa_bits : ℕ → ℕ
pa_bits f =
    if f == 0
    then 32
    else if f == 1
    then 36
    else if f == 2
    then 40
    else if f == 3
    then 42
    else if f == 4
    then 44
    else if f == 5
    then 48
    else 52
