-- ===== src/Target.antt =====
-- The class `remote_bitbang_t` (remote_bitbang.h and the constructor in remote_bitbang.cpp): its
-- members and their initial values.
mod State
mod Init
pub use State.*
pub use Init.{Setup}
unfoldable pub use Init.{construct, opened, initial_target, initial_module}
