-- ===== src/Tests.antt =====
-- Runs of the model at concrete inputs, and each property at an input where its hypotheses hold.
mod OffsetsTests
mod IngestTests
mod Scd2Tests
mod BreakerTests
mod ConsumerTests
mod DegradationTests
mod SequenceTests
mod BookTests
mod BooksTests
mod ParityTests
mod BarsTests
mod PoolTests
mod ProducerTests
mod QueryTests
