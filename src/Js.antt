-- ===== src/Js.antt =====
-- Values of the JavaScript runtime, and the runtime services that the program calls.
pub mod Text
pub mod Number
pub mod Json
pub mod Host
pub mod Toy
