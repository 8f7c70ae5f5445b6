-- ===== src/Tcpd.antt =====
-- Proj1/tcpd.c: the daemon that carries the packages, in the parts named by its modules.
pub mod Rto
pub mod Message
pub mod State
pub mod Front
pub mod Receiver
pub mod Sender
pub mod Stream
pub mod Written
pub mod Loop
pub mod Delivery
mod Tests
