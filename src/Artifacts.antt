-- ===== src/Artifacts.antt =====
-- src/foampilot/artifacts: the manifests that freeze a run.
pub mod Manifest
mod Examples
