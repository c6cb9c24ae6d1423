-- ===== src/Text.antt =====
-- The program's text handling: libs/Foundation/UnicodeConversion.cpp (`Utf8`) and
-- libs/Domain/MetadataNormalization.cpp (`CodePoint`, `Normalize`). A text is a list of bytes.
pub mod CodePoint
pub mod Utf8
pub mod Normalize
pub mod Isbn
pub mod DuplicateKey
pub mod Examples
