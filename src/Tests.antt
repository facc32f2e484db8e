-- ===== src/Tests.antt =====
-- Runs of the models, and the theorems at concrete inputs.
mod Params
mod Pointers
mod Pages
mod Arrays
mod Corruption
mod Interleaving
mod Metas
mod Headers
mod Fields
mod Inodes
mod Nodes
mod Lookups
mod Handles
mod Texts
mod Storing
mod Getters
