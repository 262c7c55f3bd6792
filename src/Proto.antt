-- ===== src/Proto.antt =====
-- The protocol messages, as proto3 decodes them: a field that was not sent has its zero value, a
-- submessage that was not sent is `none`, and an enum has any value of its 32 bits. The code that
-- protoc makes of these files is not modelled: its decoder is an argument of the parser.
pub mod Platform
pub mod Interfaces
pub mod Alarm
pub mod Telemetry
