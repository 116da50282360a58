-- ===== src/Tests.antt =====
-- Runs of the model at small inputs, and each property at an input that its hypotheses meet.
mod Scanning
mod Templating
mod Analysing
mod Indexing
mod Resolving
mod Workspaces
mod Positioning
mod Serving
