-- ===== src/Console.antt =====
-- serial_console/serial_console.cpp: the console on the serial port.
pub mod Commands
pub mod Poll
pub mod Defaults
pub mod Tests
