-- ===== src/Examples.antt =====
-- Concrete runs: a small server, and each theorem at one of its requests.
mod Host
mod Samples
mod Admissions
mod Policies
mod Protocols
mod Recoveries
mod ReadModels
mod Enrollments
mod Histories
mod Activations
mod Executions
