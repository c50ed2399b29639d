-- ===== src/Tests/Gic.antt =====
-- Runs of the interrupt controller's calls.
use open_hypervisor.Base.{ℕ, zero, ◌<◌, ◌≡◌, refl, true, arith}
use open_hypervisor.Context.{load64, store64, update, mark_dirty}
use open_hypervisor.Hv.{hv_success, ok}
use open_hypervisor.Tests.Fixtures.{blank, gic_model, running}
use open_hypervisor.Gic.Model.{gicd_typer}
use open_hypervisor.Gic.Lifecycle.{hv_gic_set_state, hv_gic_state_create, hv_gic_state_get_data}
use open_hypervisor.Gic.Lifecycle.Laws.{data_of, get_distributor_reg-set_state}
use open_hypervisor.Gic.Registers.{hv_gic_get_distributor_reg}
use open_hypervisor.Gic.Spi.{deliver, hv_gic_set_spi, first_mapped}
use open_hypervisor.Gic.Spi.Laws.{deliver_once, hv_gic_set_spi_delivers}
use open_hypervisor.Gic.Spi.ListRegisters.{
  lr_count, lr_at, is_busy, queues, inject, any_queues, first_free, lr_entry,
}
use open_hypervisor.Gic.Spi.ListRegisters.Single.{Single}

blank-Single : Single blank
unfolding queues is_busy load64
blank-Single a i j li lj qi qj = absurd (ground arith)

deliver_once_example : zero ≡ zero
unfolding deliver inject any_queues first_free queues is_busy lr_entry load64 store64 update
    mark_dirty
deliver_once_example =
    deliver_once gic_model.dist 32 true blank 32 0 0 (omega arith) blank-Single (omega arith)
      (omega arith) refl refl

hv_gic_set_spi_delivers_example :
    (j : ℕ) × (j < lr_count)
    × (queues 32 (lr_at ((hv_gic_set_spi running 32 true).0.vcpus 0).ctx j) ≡ true)
unfolding first_mapped is_busy load64
hv_gic_set_spi_delivers_example =
    hv_gic_set_spi_delivers running gic_model 32 0 0 refl (omega arith) (omega arith)
      (λ e. ground arith) refl (omega arith) (omega arith) refl

get_distributor_reg-set_state_example :
    let saved = data_of (hv_gic_state_get_data (hv_gic_state_create true) true) in
    let (h', r) = hv_gic_set_state running saved in
    (r ≡ hv_success) × (hv_gic_get_distributor_reg h' gicd_typer true ≡ ok 0)
get_distributor_reg-set_state_example =
    get_distributor_reg-set_state running gic_model gicd_typer refl
