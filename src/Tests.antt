-- ===== src/Tests.antt =====
-- Tests of the models on small inputs, and instances of the theorems.
mod Samples
mod JsonText
mod Deserialize
mod FakeTests
mod FakeRuns
mod CliTests
mod CliRuns
mod ReplayRuns
mod RecordRuns
mod Schedules
mod LoaderRuns
mod AttributionRuns
mod ScopeRuns
mod Processes
mod KernelRuns
mod ReportRuns
mod SetupRuns
mod BuildRuns
