-- ===== src/Lib.antt =====
-- OpenHypervisor: a user-space library with the interface of Apple's Hypervisor framework over
-- the kernel's own traps (README.md). A process has one virtual machine, one table of vCPUs and
-- at most one interrupt controller, all of it global state behind locks; a vCPU is a slot of the
-- table and the two pages that the kernel shares with the library for it.
--
-- The model is one state, `Host` (Host.antt), on which each call of the library is a function: it
-- takes the state and answers with the new state and the return code, or with a `Result` where
-- the source reports through an out-parameter. The calls run under the library's locks, so each is
-- one step. A null pointer is `none` or a Boolean. The kernel is a parameter, a function from
-- requests to replies on a state of its own (Vm/Kernel.antt), and so is the memory that it maps.
--
-- Which file models which part:
--   Context, Context/*        include/openhyp/ohv_context.h: the pages as 32-bit cells, their
--                             offsets, loads, stores and mark_dirty
--   Host, Hv, Vcpu/Slot       src/ohv_state.cpp, src/ohv_internal.h: the state, the return codes,
--                             find_vcpu and owned_vcpu
--   Vm/Config                 src/ohv_vm.cpp: hv_vm_config_*
--   Vm/Lifecycle              src/ohv_vm.cpp: machine_ipa_bits, nested_spaces_create,
--                             hv_vm_create, hv_vm_destroy
--   Vm/Maps, Vm/Memory        src/ohv_vm.cpp: map_remember, map_forget, ohv_guest_ptr, map_op,
--                             hv_vm_map, hv_vm_unmap, hv_vm_protect, hv_vm_allocate
--   Vm/Spaces                 src/ohv_misc.cpp: the address spaces that a caller manages by hand
--   Gic/Model, Gic/Lifecycle  src/ohv_gic.cpp: the model, hv_gic_create, hv_gic_reset
--                             and the saved state
--   Gic/Registers             src/ohv_gic.cpp: the register files; Gic/Registers/Ich the ones that
--                             reach the vCPU's pages
--   Gic/Spi                   src/ohv_gic.cpp: hv_gic_set_spi and the list registers
--   Vcpu/Environment          src/ohv_vcpu.cpp: the variables that steer it
--   Vcpu/Registers            src/ohv_vcpu.cpp: hv_vcpu_get_reg and its neighbours
--   Vcpu/Controls             src/ohv_vcpu.cpp: control fields, debug traps, virtual timer
--   Vcpu/Interrupts           src/ohv_vcpu.cpp: the two interrupt lines and their gate;
--                             Vcpu/Interrupts/Standing and Granted when a level is due, by the guest's
--                             state
--   Vcpu/Timers               src/ohv_vcpu.cpp: ohv_note_image_band, ohv_expire_timers
--   Vcpu/Lifecycle            src/ohv_vcpu.cpp: hv_vcpu_create, hv_vcpu_destroy, hv_vcpus_exit
--   Vcpu/Syndrome             src/ohv_vcpu.cpp: synth_msr_trap_syndrome and the decoding at the
--                             head of service_nv2_access
--   Vcpu/Stage1               src/ohv_vcpu.cpp: ohv_translate_stage1; Vcpu/Stage1/Tables the
--                             translation that the guest's tables define
--   Vcpu/Emulation            src/ohv_vcpu.cpp: service_nv2_access, from which access it is
--                             (Dispatch) over the registers that are kept (Nested, Shadows) to
--                             what is done (Transfer, Service)
--   Vcpu/Nesting              src/ohv_vcpu.cpp: spsr_illegal_reason, eret_is_guarded,
--                             enter_guest_el2 and what exit_from_ro does with a hypervisor call
--                             and an exception return of a guest hypervisor
--   Vcpu/Exit                 src/ohv_vcpu.cpp: exit_from_ro, its switch and what the VMM is told;
--                             Vcpu/Exit/Kept what it leaves of the slot
--   Vcpu/Run                  src/ohv_vcpu.cpp: hv_vcpu_run; Vcpu/Run/Spec the runs of entries that
--                             a call may be, Vcpu/Run/Cancel the requests for an exit,
--                             Vcpu/Run/Nested the level of a guest hypervisor
--   Vcpu/Sme                  src/ohv_misc.cpp: the streaming vectors, ZA and ZT0 in host memory
--   Vcpu/Amx                  src/ohv_misc.cpp: the matrix state in host memory
--   Vcpu/Sysreg               src/ohv_vcpu.cpp: sysreg_access, hv_vcpu_get_sys_reg and
--                             hv_vcpu_set_sys_reg; Vcpu/Sysreg/Words where the rows lie
--   Sysreg, Sysreg/*          src/ohv_sysreg_table.cpp, src/ohv_sysreg_apple.cpp: the tables and
--                             sysreg_lookup; the encodings of include/openhyp/hv_compat_enums.h
--   Caps, Caps/*              src/ohv_misc.cpp, src/ohv_caps_field.cpp: the capabilities, the
--                             identification registers, the vCPU configuration
--   Wrapper, Wrapper/*        include/openhyp/openhyp.hpp: batches of registers, the snapshot and
--                             its restoring, run over hv_vcpu_run, and run_loop
-- A Laws file, or another below a component, holds what is proved of it; Tests/* runs each theorem
-- on a concrete host.
--
-- Numbers are native; a machine word keeps its wrap-around written out. Every loop of the modelled
-- code runs over a list or a fixed number of entries and is structural recursion, but for two. The
-- walk of the guest's tables runs on fuel: four rounds, one for each level of tables, are enough.
-- hv_vcpu_run goes round as often as the kernel and the guest make it, so it runs on fuel too,
-- one unit for each entry: a call comes back by the entry in which another thread asks for an exit,
-- and every amount of fuel that reaches that entry is enough. What other threads do beside it stands in an explicit schedule, one entry for each
-- round: a request for an exit while the guest runs or while its exit is handled, and the values of
-- the variables that the vCPUs share. The exchange loop of ohv_note_image_band runs over the values
-- that other threads put there while it fails.
--
-- A sync of the system registers lets the kernel write the pages: what it makes of them is a
-- parameter. What a theorem needs of it is a hypothesis of that theorem: which words of the pages a
-- sync leaves, such as those of a register that is marked as dirty, or that it brings in the value
-- which the pages hold already for the one register that is read. The capabilities that the kernel
-- reports, host memory and the host's counter are parameters too. What an entry into the guest
-- writes is the same parameter as a sync.
--
-- Not modelled: of the C++ interface the objects that own a machine or a vCPU and the members that
-- pass one call on; ohv_error_string, which only names the codes; the second names of
-- src/ohv_alias.cpp; the traces, which print, and one of which, OHV_TRACE_GLVL, has the kernel sync
-- the registers first; the locks and the object allocation, which are the platform's, as is the
-- trap into the kernel.
pub mod Base
pub mod Context
pub mod Hv
pub mod Host
pub mod Sysreg
pub mod Caps
pub mod Vcpu
pub mod Gic
pub mod Vm
pub mod Wrapper
pub mod Tests
