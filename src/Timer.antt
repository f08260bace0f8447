-- ===== src/Timer.antt =====
-- The timers of src/timer/.
pub mod Node
pub mod Queue
pub mod Examples
pub mod Clock
