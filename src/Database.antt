-- ===== src/Database.antt =====
-- database: the connections of database/gorm and database/sql, and the migrations of database/migrate.
pub mod Gorm
pub mod Opening
pub mod Sql
pub mod Rows
pub mod Migrations
pub mod Populating
pub mod Examples
