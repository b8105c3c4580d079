-- ===== src/Tests.antt =====
-- Concrete inputs, and the theorems of the library applied to them.
mod Data
mod WireTests
mod FormatTests
mod CaptureTests
mod VolumeTests
mod ReaderTests
mod ReactorTests
mod StartupTests
mod NetTests
mod BridgeTests
mod WebTests
