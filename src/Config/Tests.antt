-- ===== src/Config/Tests.antt =====
-- A concrete configuration for the theorem on its limits.
use srtrust.Prelude.{◌≡◌, ◌↔◌}
use srtrust.Prelude.Result.{ok}
use srtrust.Config.{default, validate, with_mtu}
use srtrust.Config.Limits.{IsWithinLimits, validate_iff}

validate_iff_example :
    (validate (with_mtu default 1316) ≡ ok tt) ↔ IsWithinLimits (with_mtu default 1316)
validate_iff_example = validate_iff (with_mtu default 1316)
