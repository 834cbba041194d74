-- ===== src/Fetcher.antt =====
-- The package fetcher, roscope/fetcher.py: `Git` has its git commands, `Repo` the checkout of a
-- repository, `Packages` the functions that other modules call.
pub mod Git
pub mod Repo
pub mod Packages
pub mod Laws
pub mod Frame
pub mod Verified
pub mod Collected
pub mod Refused
pub mod Available
mod Tests
