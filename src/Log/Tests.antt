-- ===== src/Log/Tests.antt =====
-- Settings of the logger.
use tiny_port_mapper_rust.Log.{new, set_level, is_enabled, warn, info}
use tiny_port_mapper_rust.Common.{◌≡◌, refl, false}

info_is_off : is_enabled (set_level new warn) info ≡ false
unfolding set_level is_enabled
info_is_off = refl
