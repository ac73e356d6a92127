-- ===== src/Tests.antt =====
-- Concrete runs of the model, and the theorems at concrete inputs.
mod Data
mod Admission
mod Requests
mod Runtime
mod Native
mod Output
mod Sample
mod Calibration
mod Bundle
mod Predict
mod Adk
mod Source
