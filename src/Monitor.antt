-- ===== src/Monitor.antt =====
-- src/sys_monitor.cpp: the monitor of a computer.
pub mod CpuStats
pub mod Hostname
pub mod Messages
pub mod Config
pub mod Rounds
