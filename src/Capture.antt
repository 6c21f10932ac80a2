-- ===== src/Capture.antt =====
-- src/pricewatch/capture.py: the recorder of network traffic.
pub mod Recorder
pub mod Recorded
pub mod Summary
pub mod Document
pub mod Summarised
pub mod Ranked
mod Tests
