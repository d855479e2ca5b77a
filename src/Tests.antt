-- ===== src/Tests.antt =====
-- The theorems at concrete inputs, and runs of the functions.
mod Sample
mod Metadata
mod Valid
mod Hosts
mod Deletion
mod Volumes
mod Sizes
mod Creation
mod Auth
mod Resizing
mod Replacing
mod Priorities
mod Deleting
mod Configuration
mod Creating
