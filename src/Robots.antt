-- ===== src/Robots.antt =====
-- orchestrator/robots_policy.py: robots.txt. Texts are lists of code points. The modules stand for
-- `_normalize_octets`, the matcher of one rule, the choice between rules, the parser's groups, and the
-- cache of snapshots.
pub mod Octets
pub mod Glob
pub mod Suffixes
pub mod Behind
pub mod Matching
pub mod Rules
pub mod Verdict
pub mod Groups
pub mod Parsing
pub mod Snapshots
pub mod Answers
pub mod Tests
