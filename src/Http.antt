-- ===== src/Http.antt =====
-- hulatang/http: an HTTP/1 client over the connections of hulatang/io.
pub mod Constant
pub mod Url
pub mod Number
pub mod Response
pub mod Request
pub mod Client
mod Examples
