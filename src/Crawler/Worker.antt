-- ===== src/Crawler/Worker.antt =====
-- processJob of crawler/worker.go, with the calls that it makes.
--
-- `Flow` is the course of the function's body: it goes on with a value, it meets a `return`, or the
-- goroutine never gets past a call. The state holds what the body changes: the job, which is behind
-- a pointer; the deferred notifications, the last one first; the world, the database, and the calls
-- that leave the process, in order.
pub mod Defs
pub mod Run
pub mod Triple
pub mod Front
pub mod Back
pub mod Marked
pub mod Job
pub mod Returns
pub mod Steps
pub mod Frame
pub mod Loop
pub mod Week
