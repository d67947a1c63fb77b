-- ===== src/Scale/Port.antt =====
-- What the drivers share: the measurement of scale.c, and the C library's strtof and nanf.
use open_trickler_rp2040_con.Prelude.{ℕ, Bool, true, Option, none, some, List}

-- `strtof` on the bytes from a place on: `none` where it converts nothing.
pub record Text (F : Type 0) : Type 0 where
  pub strtof : List ℕ → Option F
  pub nanf : List ℕ → F

-- The fields of scale_config_t that a listener writes. The semaphore is binary, and NULL before it is
-- created.
pub record Scale (F : Type 0) : Type 0 where
  pub current_scale_measurement : F
  pub scale_measurement_ready : Option Bool

-- xSemaphoreGive on a handle that is not NULL.
abbrev pub give : Option Bool → Option Bool
give none = none
give (some full) = some true

unfoldable pub post : {F : Type 0} → F → Scale F → Scale F
post weight s = record {
  current_scale_measurement = weight;
  scale_measurement_ready = give s.scale_measurement_ready;
}
