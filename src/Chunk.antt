-- ===== src/Chunk.antt =====
-- chunk/: text is split into retrieval-sized chunks. Child modules hold the types and defaults
-- (Defs), the cut positions (Cuts), the segmenters (Segment, Lines, Headings), the packing loops
-- (Pack) and `Split` with its hard-split paths (Split).
pub mod Defs
pub mod Cuts
pub mod Segment
pub mod Lines
pub mod Headings
pub mod Pack
pub mod Run
pub mod Hard
pub mod Split
mod Tests
