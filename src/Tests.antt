-- ===== src/Tests.antt =====
-- Runs of the code on concrete inputs, and the theorems at them.
mod Job
mod Loop
mod Logs
mod Calls
mod Texts
mod Boot
mod SshAgent
mod Serving
