-- ===== src/Tests.antt =====
-- Concrete runs, and each theorem at a concrete input.
mod Samples
mod StreamSamples
mod Runs
mod UnaryRuns
mod ClientRuns
mod SidecarRuns
mod ReflectionRuns
mod ProxyRuns
mod StreamingRuns
mod ProgramRuns
mod WholeRuns
