-- ===== src/Tests.antt =====
-- Runs of the model on the inputs of the repository's unit tests, and the theorems at inputs that
-- meet their hypotheses.
mod Parsing
mod Samples
mod Running
mod Sessions
mod TaskExamples
mod EdgeExamples
mod Lines
mod LogExamples
mod TextExamples
mod SystemExamples
mod SessionExamples
mod StoreExamples
mod ChannelExamples
mod AgentExamples
mod DaemonExamples
mod ClaimExamples
mod ReadingLines
