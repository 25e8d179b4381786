-- ===== src/Examples.antt =====
-- Tests of the definitions on concrete inputs, and the theorems at inputs that meet their
-- hypotheses.
mod Text
mod Operations
mod States
mod Pools
mod Coder
mod Builders
mod Queries
mod Access
mod Managers
mod Rows
