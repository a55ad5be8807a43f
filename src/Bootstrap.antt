-- ===== src/Bootstrap.antt =====
-- Parts of bootstrap/bootstrap.c that read the class sources: global names, and the scanning of class
-- commands.
pub mod Globals
pub mod ClassCommand
pub mod Names
pub mod Tests
