-- ===== src/Tests.antt =====
-- Concrete devices, tables and directories, and the theorems at them.
mod Bitmap
mod Group
mod Names
mod Disk
mod Layout
mod Store
mod Mounted
mod Formatted
mod Tree
mod Removed
mod Content
mod Command
