-- ===== src/Config/Error.antt =====
-- The enum `Error` of pingap-config/src/lib.rs, in the kinds that the configuration's checks
-- return; a panic is one more outcome.
use pingap.Common.Text.{Str}

pub data Error : Type 0 where
  invalid : Str → Error
  io : Str → Str → Error
  de : Str → Error
  ser : Str → Error
  url_parse : Str → Error
  regex : Str → Error
  panicked : Error
