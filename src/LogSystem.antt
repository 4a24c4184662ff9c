-- ===== src/LogSystem.antt =====
-- log_system/logs_code: the asynchronous logger.
pub mod Buffer
pub mod Worker
pub mod Roll
pub mod Pool
pub mod Front
