-- ===== src/Tests.antt =====
-- Test data, and the theorems at concrete inputs.
mod Pages
mod Overlays
mod DirectoryPages
mod Tree
mod Growth
mod Policies
mod Buffers
mod Directories
mod Values
mod Heaps
