-- ===== src/Sources.antt =====
-- pipelines/source_segmentation.py: how a source document is cut into the parts that are read one by one.
pub mod Document
pub mod Printing
pub mod Packing
pub mod HardSplit
pub mod Blocks
pub mod Headings
pub mod Turns
pub mod Outlines
pub mod Fragment
pub mod Segmenter
mod Tests
