-- ===== src/Graphics.antt =====
-- graphics/: the context's message queue, its frame times and its settings; passes, heightmaps and frames.
pub mod Queue
pub mod Frames
pub mod Context
pub mod Gui
pub mod Passes
pub mod Heightmap
mod Tests
