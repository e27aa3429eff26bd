-- ===== src/Serve.antt =====
-- internal/serve: the path fence and the media handler.
pub mod Resolve
pub mod Filename
pub mod Handler
