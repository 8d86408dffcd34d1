-- ===== src/Data.antt =====
-- include/clc/data and src/clc/data: validation reports, definitions and their registry.
pub mod Validation
pub mod Registry
