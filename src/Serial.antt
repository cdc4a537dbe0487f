-- ===== src/Serial.antt =====
-- The serial line: speeds, line settings, and the functions of serial_handle.c that read and write
-- them on the open device.
pub mod Speed
pub mod Termios
pub mod Line
pub mod Pool
