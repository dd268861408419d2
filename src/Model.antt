-- ===== src/Model.antt =====
-- src/model: the values, rows and schemas of the relational layer.
pub mod Value
pub mod Schema
