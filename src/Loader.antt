-- ===== src/Loader.antt =====
-- config/ConfigLoader.cpp: from the text of a configuration file to a PolicyConfig.
pub mod Words
pub mod Text
pub mod Values
pub mod Assign
pub mod Load
pub mod Valid
pub mod Outcome
pub mod Decimal
