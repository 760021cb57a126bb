-- ===== src/Tests.antt =====
-- The theorems at concrete inputs, and runs of the models.
mod TxTests
mod TickTests
mod QueueTests
mod CoreTests
mod RepeaterTests
mod BusTests
mod RingTests
mod ConfigTests
mod DtmfTests
mod ReflectorTests
mod UserTests
mod EmergencyTests
mod CallerTests
mod RrdTests
mod WavTests
mod IniEditTests
mod OtpTests
