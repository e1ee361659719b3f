-- ===== src/Reports.antt =====
-- src/sourceos_syncd/reports.py: State Integrity Reports. A report is a dict of JSON values. What the
-- functions raise on values of other types (AttributeError, TypeError, ValueError) is `none` of an
-- Option; `Library` holds what they take from Python's library.
pub mod Checks
pub mod Shape
pub mod Sections
pub mod Resources
pub mod Validation
pub mod Verify
pub mod Diagnosis
pub mod Repair
