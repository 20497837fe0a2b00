-- ===== src/Tests.antt =====
-- Concrete runs, and for each theorem of the development one input at which its hypotheses hold.
mod Server
mod Authority
mod Jobs
mod Backup
mod Facts
mod Claims
mod Appliance
mod Merge
mod Values
mod Requests
