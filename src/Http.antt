-- ===== src/Http.antt =====
-- http_server/http_server.c, http_server/url_collection.cpp.
pub mod Response
pub mod Request
pub mod Lifecycle
pub mod Text
pub mod Url
pub mod Tests
