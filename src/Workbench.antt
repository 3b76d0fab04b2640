-- ===== src/Workbench.antt =====
-- extensions/pyside_mvc/workbench: the commands of a desktop application and what they may look like.
pub mod ActionText
pub mod ActionDescriptor
pub mod ActionRegistry
