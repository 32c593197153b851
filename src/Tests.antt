-- ===== src/Tests.antt =====
-- Runs of the model on concrete inputs, and the theorems applied to them.
mod Strings
mod Paths
mod Tables
mod Trees
mod Names
mod Letters
mod Queues
mod Requests
mod Frames
