-- ===== src/Tests.antt =====
-- Runs of the model on small inputs, and the theorems at such inputs.
mod Samples
mod Stores
mod Links
mod Cloud
mod Clients
mod Machine
mod Networks
mod Pages
mod Systems
mod Commands
