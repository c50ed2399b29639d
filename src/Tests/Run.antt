-- ===== src/Tests/Run.antt =====
-- Runs of a vCPU: exits that are told, and requests for an exit.
use open_hypervisor.Base.{
  ℕ, ◌+◌, ◌%◌, ◌^◌, ap, ◌∙◌, ◌≡◌, refl, ◌⊎◌, Bool, true, false, some, List, [], ◌∷◌, arith, ◌==◌,
  if◌then◌else◌, ◌||◌,
}
use open_hypervisor.Context.{Ctx, load32, load64}
use open_hypervisor.Context.Rw
use open_hypervisor.Wrapper.Run.{ExitInfo, Session, run}
use open_hypervisor.Wrapper.Run.Told.{run-told}
use open_hypervisor.Hv.{hv_success, ok}
use open_hypervisor.Host.{Host, put_slot, find_vcpu, owned_vcpu}
use open_hypervisor.Vm.Kernel.{Trap, Request, recording}
use open_hypervisor.Caps.Block.{zero_capabilities}
use open_hypervisor.Tests.Fixtures.{slot, running, fresh_pages}
use open_hypervisor.Vcpu.Slot.{VcpuSlot}
use open_hypervisor.Vcpu.Environment.{default_environment}
use open_hypervisor.Vcpu.Emulation.Service.{Surroundings}
use open_hypervisor.Vcpu.Lifecycle.{hv_vcpus_exit}
use open_hypervisor.Vcpu.Nesting.{leave_guarded}
use open_hypervisor.Vcpu.Exit.{
  exit_canceled, exit_exception, exit_prelude, mirror_gl1, monitor_nv, exit_switch,
  physical_interrupt, exception, told_syndrome, report, exit_from_ro,
}
use open_hypervisor.Vcpu.Exit.Laws.{is_internal, exit_from_ro-told, exit_from_ro-vtimer_due}
use open_hypervisor.Vcpu.Run.{
  Round, Machine, again, enter, stopped, entered, handled, run_loop, hv_vcpu_run,
}
use open_hypervisor.Base.Bits.{bit_at}
use open_hypervisor.Vcpu.Nesting.Laws.{is_nested}
use open_hypervisor.Vcpu.Run.Nested.{run_loop-nested}
use open_hypervisor.Vcpu.Run.Spec.{Ends, goes_on, one_round_lem}
use open_hypervisor.Vcpu.Run.Laws.{run_again}
use open_hypervisor.Vcpu.Run.Cancel.{
  entered_requested, handled_requested, run_loop_ends, run_loop_cleared, run_loop_canceled,
  one_round_again, hv_vcpus_exit-run,
}

abbrev surroundings : Surroundings
surroundings = record {
  now = 100;
  cntfrq = 24000000;
  caps = zero_capabilities;
  memory = λ _. 0;
  maps = [];
}

abbrev entering : Trap (List Request)
entering = recording (λ _. record { code = 0; word = 0 })

-- The kernel leaves the pages as they are.
abbrev same : List Request → Ctx → Ctx
same _ c = c

-- What the kernel shows after each entry: an exit for an interrupt that it has dealt with.
abbrev shown : Ctx
shown i = if i == 4098 then 7 else 0

abbrev showing : List Request → Ctx → Ctx
showing _ _ = shown

abbrev quiet : Round
quiet = record {
  started = 10;
  timers = 11;
  ended = 15;
  races = [];
  band = λ b. b;
  held = λ w. w;
  asked = false;
  asked_again = false;
  surroundings = surroundings;
}

-- Another thread asks during the second entry.
abbrev rounds : ℕ → Round
rounds i = if i == 1 then record quiet { asked = true } else quiet

abbrev machine : Machine (List Request)
machine = record { kernel = []; slot = slot; held = 0; band = 0 }

abbrev before : Machine (List Request)
before = entered entering showing default_environment running quiet machine

abbrev next : Machine (List Request)
next = (handled entering showing default_environment running quiet before).0

abbrev last : Machine (List Request)
last = stopped (entered entering showing default_environment running (rounds 1) next)

not_told : (b : Bool) → (b ≡ true → true ≡ false) → b ≡ false
not_told true no_way = no_way refl
not_told false _ = refl

untold : (handled entering showing default_environment running quiet before).1 ≡ false
unfolding handled entered enter load32
untold = not_told _ (λ t.
    (exit_from_ro-told running surroundings entering showing default_environment before.kernel
      before.slot 0 (λ i. ground arith) t).0)

not_asked : before.slot.exit_requested ≡ false
not_asked = entered_requested entering showing default_environment running quiet machine

not_asked_again : next.slot.exit_requested ≡ false
not_asked_again =
    handled_requested entering showing default_environment running quiet before
    ∙ ap (λ (b : Bool). b || false) not_asked

first_entry : Ends entering showing default_environment running quiet machine (next, again)
first_entry = goes_on refl not_asked untold not_asked_again

both_entries :
    run_loop entering showing default_environment running 2 rounds 0 machine
    ≡ some (last, hv_success)
both_entries =
    run_again entering showing default_environment running rounds 1 0 machine next (
      one_round_lem entering showing default_environment running quiet machine (next, again)
        first_entry)
    ∙ run_loop_canceled entering showing default_environment running rounds 0 1 next refl
        (ap (λ (b : Bool). b || true) not_asked_again)

run_loop_cleared_example : last.slot.exit_requested ≡ false
run_loop_cleared_example =
    run_loop_cleared entering showing default_environment running rounds 2 0 machine last
      both_entries

one_round_again_example :
    (machine.slot.exit_requested ≡ false)
    × (quiet.asked ≡ false)
    × (quiet.asked_again ≡ false)
    × (next.slot.exit_requested ≡ false)
one_round_again_example =
    one_round_again entering showing default_environment running rounds 0 machine next (
      one_round_lem entering showing default_environment running quiet machine (next, again)
        first_entry)

run_loop_ends_example :
    (m' : Machine (List Request)) × (c : ℕ) × (run_loop entering showing default_environment running
        5 rounds 0 machine
      ≡ some (m', c))
run_loop_ends_example =
    run_loop_ends entering showing default_environment running rounds 1 5 0 machine (omega arith)
      refl

-- A guest hypervisor at its EL2, with NV on.
abbrev hypervisor : Machine (List Request)
hypervisor = record machine {
  slot = record slot { guest_at_el2 = true; ctx = λ i. if i == 585 then 1024 else 0 };
}

abbrev asking : ℕ → Round
asking i = record quiet { asked = true }

run_loop-nested_example :
    is_nested
      (stopped (entered entering same default_environment running (asking 0) hypervisor)).slot
    ≡ true
unfolding bit_at load64
run_loop-nested_example =
    run_loop-nested entering same (λ k c. refl) default_environment running asking 1 0 hv_success
      hypervisor (stopped (entered entering same default_environment running (asking 0) hypervisor))
      (run_loop_canceled entering same default_environment running asking 0 0 hypervisor refl refl)
      refl

-- Two ids are asked out, and vCPU 0 is one of them.
abbrev asked : Host × List Request × ℕ
asked = hv_vcpus_exit entering fresh_pages running [] (some (1 ∷ 0 ∷ []))

hv_vcpus_exit-run_example :
    (m' : Machine (List Request)) × (hv_vcpu_run entering showing default_environment asked.0 1
        rounds asked.1 0 0 0
      ≡ some (put_slot asked.0 0 m'.slot, m', hv_success))
    × (m'.slot.exit_reason ≡ exit_canceled)
    × (m'.slot.exit_requested ≡ false)
    × (m'.slot.run_count ≡ (slot.run_count + 1) % 2 ^ 64)
unfolding owned_vcpu find_vcpu
hv_vcpus_exit-run_example =
    hv_vcpus_exit-run entering fresh_pages showing default_environment running (1 ∷ 0 ∷ []) rounds 0
      0 0 0 [] slot refl refl refl refl

-- A guest that is stopped by a data abort.
abbrev abort : ℕ
abort = 0x92000000

abbrev aborting : Ctx
aborting i =
    if i == 4098
    then 6
    else if i == 4100
    then abort
    else if i == 4104
    then 0x1234
    else if i == 4106
    then 0x8000000
    else 0

abbrev aborted : VcpuSlot
aborted = record slot { ctx = aborting }

exit_from_ro-told_example :
    let t = (exit_from_ro running surroundings entering same default_environment [] aborted 0).1 in
    (is_internal 6 ≡ false)
    × (t.exit_reason ≡ exit_exception)
    × ((abort ≡ 0) ⊎ (t.exit_syndrome ≡ abort))
    × (t.exit_virtual_address ≡ 0x1234)
    × (t.exit_physical_address ≡ 0x8000234)
unfolding exit_from_ro exit_prelude leave_guarded mirror_gl1 monitor_nv exit_switch exception
    told_syndrome report load32 load64
exit_from_ro-told_example =
    exit_from_ro-told running surroundings entering same default_environment [] aborted 0
      (λ i. ground arith) refl

-- A guest that is stopped by a physical interrupt, with its virtual timer due.
abbrev expired : VcpuSlot
expired = record slot { ctx = λ i. if i == 4098 then 3 else if i == 274 then 5 else 0 }

exit_from_ro-vtimer_due_example :
    let after =
      (exit_from_ro running surroundings entering same default_environment [] expired 0).1.ctx in
    (bit_at (load64 expired.ctx Rw.timer) 0 ≡ 0)
    × (load64 expired.ctx 0x448 ≡ 5)
    × (bit_at (load64 after Rw.timer) 0 ≡ 1)
    × (load64 after 0x448 ≡ 5)
unfolding exit_from_ro exit_prelude leave_guarded mirror_gl1 monitor_nv exit_switch
    physical_interrupt report load32 load64
exit_from_ro-vtimer_due_example =
    exit_from_ro-vtimer_due running surroundings entering same default_environment [] expired 0 0
      (λ i. ground arith) refl refl (omega arith)

-- The same through the C++ interface: the kernel shows the abort after the entry.
abbrev session : Session (List Request)
session = record { host = running; kernel = []; held = 0; band = 0 }

abbrev aborts : List Request → Ctx → Ctx
aborts _ _ = aborting

run-told_example :
    (c' : Session (List Request)) × (info : ExitInfo) × (run entering aborts default_environment 1
        rounds 0 session
      ≡ some (c', ok info))
    × (info.reason ≡ exit_exception)
    × ((abort ≡ 0) ⊎ (info.syndrome ≡ abort))
    × (info.virtual_address ≡ 0x1234)
    × (info.physical_address ≡ 0x8000234)
unfolding entered enter handled exit_from_ro exit_switch exception told_syndrome report load32
    load64 owned_vcpu find_vcpu
run-told_example =
    run-told entering aborts default_environment 0 rounds 0 session slot refl refl refl
      (λ i. ground arith) refl
