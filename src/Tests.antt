-- ===== src/Tests.antt =====
-- Runs of the modelled code on small inputs, and the theorems at inputs that meet their hypotheses.
mod Samples
mod RingTests
mod WheelTests
mod DlqTests
mod GroupTests
mod WalTests
mod BrokerTests
mod RespTests
mod ServerTests
mod RecoveryTests
mod ApiTests
mod ChannelsTests
mod ProgramTests
mod CliTests
