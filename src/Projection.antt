-- ===== src/Projection.antt =====
-- projection/memory: the bitemporal projection of memory events. `State` has the types, `Query` the
-- read side, `Update` and `Apply` the write side; the other modules are proofs.
pub mod State
pub mod Query
pub mod Update
pub mod Apply
pub mod Rebuild
pub mod Parts
pub mod WellFormed
pub mod Replayed
pub mod Active
pub mod Incidents
pub mod Visible
pub mod Views
pub mod Past
