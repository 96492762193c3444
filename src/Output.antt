-- ===== src/Output.antt =====
-- src/cli/output.c: UTF-8 validation, JSON strings and the two output formats.
pub mod Emit
pub mod Json
pub mod Utf8
pub mod Writer
