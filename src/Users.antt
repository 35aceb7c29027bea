-- ===== src/Users.antt =====
-- crabclaw/user: the profiles of users, their accounts and sessions, and the identities under which
-- the channels know them.
pub mod Profile
pub mod Mapping
pub mod State
pub mod Config
pub mod Identities
pub mod Owners
pub mod Normal
pub mod Grouping
pub mod Saved
pub mod Resolution
pub mod Refinement
pub mod Accounts
pub mod Configs
pub mod Configured
pub mod Configuring
pub mod RoundTrip
pub mod LogIn
pub mod Sessions
pub mod Deletion
pub mod Unmapping
