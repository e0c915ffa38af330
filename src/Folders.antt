-- ===== src/Folders.antt =====
-- Listing a folder with all that is in it: transfer/FolderEnumerator.h and FolderEnumerator.cpp.
pub mod Enumerator
pub mod Located
pub mod Served
pub mod Discovered
pub mod Listings
pub mod Tests
