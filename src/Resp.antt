-- ===== src/Resp.antt =====
-- internal/resp: the RESP2 wire format.
pub mod Value
pub mod Marshal
pub mod Reader
