-- ===== src/Io.antt =====
-- hulatang/io: the event loop, the channels and the connections.
pub mod Status
pub mod Reactor
pub mod Connector
pub mod Pool
pub mod Proactor
pub mod WsProactor
pub mod Iocp
pub mod WsAccept
pub mod WsConnect
pub mod FdTable
pub mod Timer
pub mod Cycle
pub mod Loop
pub mod Idle
pub mod Wakeup
pub mod Channel
pub mod Connection
pub mod Acceptor
pub mod Address
pub mod Thread
pub mod Server
pub mod Client
mod TestKernel
mod Examples
