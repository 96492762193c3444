-- ===== src/Parse.antt =====
-- src/cli/parse.c: whitespace, string tokens, the strict key object and the key input.
pub mod KeyInput
pub mod KeyObject
pub mod Message
pub mod Sizes
pub mod Token
pub mod Whitespace
