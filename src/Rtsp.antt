-- ===== src/Rtsp.antt =====
-- sdk/rtsp.go: the RTSP client for camera plugins, and the RTP and H264 code that it feeds.
pub mod Error
pub mod Auth
pub mod Response
pub mod Client
pub mod Sdp
pub mod Interleaved
pub mod Packet
pub mod H264
