-- ===== src/Doc.antt =====
-- libs/jwst-codec/src/doc: the document's data types and their binary form.
pub mod Error
pub mod Io
pub mod Client
pub mod OrderRange
pub mod StateVector
pub mod DeleteSet
pub mod Awareness
pub mod ItemFlag
pub mod YType
pub mod Any
pub mod Content
pub mod Item
pub mod Node
pub mod Store
pub mod Update
pub mod Document
