-- ===== src/Controller.antt =====
-- hermes_controller/controller.py: the durable state machine of jobs, leases, results and gates.
-- The operations stand in the modules below; what they keep stands in `Controller.Invariant`.
pub mod Schema
pub mod Validate
pub mod Workers
pub mod Enqueue
pub mod Claim
pub mod Leases
pub mod Results
pub mod Gates
pub mod Projects
pub mod Views
pub mod Late
pub mod Machine
pub mod Invariant
pub mod Capacity
pub mod Dispatch
pub mod Expiry
pub mod Repeats
pub mod Named
pub mod Samples
pub mod Tests
