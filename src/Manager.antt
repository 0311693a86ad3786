-- ===== src/Manager.antt =====
-- src/manager/mod.rs: the managers of TCP connections and UDP sessions. The clock's reading is an
-- argument. Locks are held for the whole of each operation, so an operation is one step.
pub mod Inactive
pub mod Tcp
pub mod Udp
