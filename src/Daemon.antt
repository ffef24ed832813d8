-- ===== src/Daemon.antt =====
-- src/aprs_wx.cpp: the configuration of `main`, and what it does with the packets of one connection.
pub mod Config
pub mod Ending
pub mod Handling
pub mod Safety
pub mod Output
pub mod Senders
pub mod Session
pub mod Visits
pub mod Heard
