-- ===== src/Connect.antt =====
-- How a session comes to be connected: what the server's capabilities allow, the addresses of a
-- connection string and the attributes of a connection (xmysqlnd/xmysqlnd_session.cc and
-- xmysqlnd/xmysqlnd_compression_setup.cc).
pub mod Values
pub mod Compression
pub mod Authenticate
pub mod Addresses
pub mod Options
pub mod Attributes
