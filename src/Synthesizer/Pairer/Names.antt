-- ===== src/Synthesizer/Pairer/Names.antt =====
-- The names of composite devices have no slash, so the keys of the store are unambiguous.
use composite_dra_driver.Prelude.{All}
use composite_dra_driver.Prelude.Run.{IfReturns}
use composite_dra_driver.Store.Devices.{HasNoSlash}
use composite_dra_driver.Synthesizer.Devices.{DeviceMap}
use composite_dra_driver.Synthesizer.Build.Names.{build-HasNoSlash}
use composite_dra_driver.Synthesizer.Explicit.Taken.{place-HasNoSlash}
use composite_dra_driver.Synthesizer.Pairer.{RangeOrders, Pairer, compute_pairs}
use composite_dra_driver.Synthesizer.Pairer.Built.{compute_pairs_built}

pub compute_pairs-HasNoSlash :
    (visit : RangeOrders) (p : Pairer) (by_source : DeviceMap)
    → IfReturns (All (λ cd. HasNoSlash cd.name)) (compute_pairs visit p by_source)
compute_pairs-HasNoSlash =
    compute_pairs_built (λ cd. HasNoSlash cd.name) build-HasNoSlash place-HasNoSlash
