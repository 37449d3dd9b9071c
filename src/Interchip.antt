-- ===== src/Interchip.antt =====
-- src/interchip: the SPI link between the two boards.
pub mod Cell
pub mod Sequence
pub mod Sender
pub mod Receiver
pub mod Link
pub mod Record
pub mod Delivery
pub mod RateBudget
pub mod Recovery
pub mod Handshake
pub mod Fragment
