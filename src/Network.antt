-- ===== src/Network.antt =====
-- The connections and the reactor of src/network/.
pub mod Kernel
pub mod Buffer
pub mod Channel
pub mod Connection
pub mod Server
pub mod Examples
pub mod ThreadPool
pub mod Socket
pub mod Reactor
pub mod EchoServer
