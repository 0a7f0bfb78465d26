-- ===== src/Viewer.antt =====
-- logviewer: the terminal user interface.
pub mod Graph
