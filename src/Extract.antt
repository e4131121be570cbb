-- ===== src/Extract.antt =====
-- extract/: the extractors that turn source bytes into artifacts, and their registry.
pub mod Io
pub mod Defs
pub mod Bounds
pub mod Normalize
pub mod Registry
pub mod Helpers
pub mod Plain
pub mod Markdown
pub mod Pdf
pub mod Html
pub mod Ooxml
pub mod Docx
pub mod Slides
pub mod Pptx
pub mod Preset
mod Tests
