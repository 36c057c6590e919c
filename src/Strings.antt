-- ===== src/Strings.antt =====
-- common/Utilities: Tokenize.cpp, StringFormat.cpp, Util.cpp and StringConvert.h.
pub mod Tokenize
pub mod Trim
pub mod Compare
pub mod Convert
