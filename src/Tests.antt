-- ===== src/Tests.antt =====
-- Runs of the model on small inputs, and the instances of its theorems there.
mod Rtsp
mod Metrics
mod Results
mod Hosts
mod Artifacts
mod Inputs
mod Calls
mod Uploads
mod Grants
mod RtspText
mod LocalRuns
mod Connections
