-- ===== src/Discovery.antt =====
-- The generation of lockfiles in roscope/indexer.py: `Xml` reads a package.xml, `Git` has the git
-- commands, `Packages` finds the packages of a repository, and `Generate` makes the lockfile.
pub mod Xml
pub mod Parsed
pub mod Git
pub mod Packages
pub mod Generate
pub mod Consistent
mod Tests
