-- ===== src/Config.antt =====
-- core/config.py: the validators of the configuration that the delivery code relies on. A validator
-- that raises ValueError gives `invalid`.
pub mod Targets
pub mod Lanes
use nats_sinks.Errors.{Result, err, unexpected}

abbrev pub invalid {ℓ} : {V : Type ℓ} → Result V
invalid = err unexpected
