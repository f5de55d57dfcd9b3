-- ===== src/Bypass.antt =====
-- internal/bypass: the user's rules (Rule), the matcher over them (Matcher), the rules file (RulesFile,
-- Disk, Store) and the manager that joins them with DNS (Manager).
pub mod Rule
pub mod Matcher
pub mod RulesFile
pub mod Disk
pub mod Store
pub mod Manager
