-- ===== src/Tests.antt =====
-- Concrete runs, at which the theorems about homework.c and misc.c apply.
mod Fixture
mod Creating
mod Crowded
mod Removing
mod Renaming
mod Mounting
mod Truncating
mod Reading
mod Writing
mod Making
mod Changing
mod Serving
mod Sound
mod Sequences
mod Listing
mod Structures
mod Requests
