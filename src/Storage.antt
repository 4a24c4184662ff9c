-- ===== src/Storage.antt =====
-- src/server: the cloud storage service.
pub mod Url
pub mod Query
pub mod Mysql
pub mod Page
pub mod Listing
pub mod Html
pub mod FileName
pub mod ContentType
pub mod Path
pub mod Disk
pub mod Meta
pub mod Http
pub mod Session
pub mod Backed
pub mod Upload
pub mod Sample
pub mod Delete
pub mod Download
pub mod Multipart
pub mod Merge
pub mod Complete
pub mod Dispatch
