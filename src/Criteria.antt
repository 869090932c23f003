-- ===== src/Criteria.antt =====
-- framework/core: the criteria that a reading is judged by.
pub mod Variants
mod Examples
