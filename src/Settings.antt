-- ===== src/Settings.antt =====
-- src/settings/config_io.cpp: the files of the settings program. A file is its bytes, and `none` is one
-- that cannot be opened.
pub mod Lines
pub mod Conf
pub mod Macros
pub mod Trigger
pub mod Apps
pub mod Words
mod Examples
