-- ===== src/Control.antt =====
-- framework/core: what a run is stopped by.
pub mod StopRequest
mod Examples
