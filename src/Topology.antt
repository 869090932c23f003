-- ===== src/Topology.antt =====
-- framework/hal: where a rig's boxes are. The addresses, the boxes that share them, and the
-- operator's overrides.
pub mod Address
pub mod Boxes
pub mod Tables
pub mod Plan
mod Examples
