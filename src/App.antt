-- ===== src/App.antt =====
-- The parts of src/app.
pub mod Config
