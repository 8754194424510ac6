-- ===== src/Tests.antt =====
-- Small runs of the models, and the theorems at concrete inputs.
mod Files
mod Calls
mod Consoles
mod Devices
mod Keys
mod Processes
mod Reading
mod Texts
mod Programs
mod Starts
mod Traps
mod Shell
mod Boots
mod Terminals
