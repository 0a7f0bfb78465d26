-- ===== src/Sql/Parsing.antt =====
-- tracer/sql/parse.go: SelectParser, which makes a statement of the syntax tree that sqlparser gives.
pub mod Syntax
pub mod Tables
pub mod Conditions
pub mod Statements
pub mod Columns
pub mod Accepted
pub mod Printing
