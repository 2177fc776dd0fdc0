-- ===== src/Examples.antt =====
-- Concrete schedules, buffers and devices, and the theorems at them.
mod Feeding
mod Devices
mod Supervisor
mod Zones
mod Motors
mod System
