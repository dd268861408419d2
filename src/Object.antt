-- ===== src/Object.antt =====
-- src/object: the values and types of objects, and the records that they are stored as.
pub mod AttributeValue
pub mod Codec
pub mod TypeDefinition
