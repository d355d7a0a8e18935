-- ===== src/Status/Temperature.antt =====
-- system/temperture.c: the analog-to-digital converter that reads the temperature. The numbers that are
-- computed from its samples are floating point, and are not modelled.
use pico_common.Common.{ℕ, Bool, true, false, Option, some}

-- What the SDK's calls set: whether the converter runs, whether its temperature sensor has power, and its
-- input.
pub record Adc : Type 0 where
  pub initialised : Bool
  pub temp_sensor_enabled : Bool
  pub input : Option ℕ

unfoldable pub temperture_init : Adc → Adc × Bool
temperture_init adc =
    (record adc { initialised = true; temp_sensor_enabled = true; input = some 4 }, true)

unfoldable pub temperture_deinit : Adc → Adc × Bool
temperture_deinit adc = (record adc { temp_sensor_enabled = false }, true)
