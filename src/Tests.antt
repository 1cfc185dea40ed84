-- ===== src/Tests.antt =====
-- The theorems at concrete inputs.
mod Scenario
mod Lifecycle
mod Loop
mod Agents
mod Diagnosis
mod Transport
mod Intake
mod Collectors
mod Services
mod Wiring
