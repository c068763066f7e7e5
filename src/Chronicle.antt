-- ===== src/Chronicle.antt =====
-- The recorder's content addressing (chronicle/core.py), the append-only stores (chronicle/store.py)
-- and the replay court (chronicle/court.py).
pub mod Value
pub mod Canonical
pub mod Signing
pub mod Recorder
pub mod Capture
pub mod Court
