-- ===== src/Examples.antt =====
-- Tests of the definitions on concrete inputs, and the theorems applied to them.
mod LockTable
mod Access
mod Buffers
mod Crypto
mod Durable
mod Sessions
mod Dispatch
mod Frames
mod Paths
mod Codecs
mod Protocol
mod ShareModes
mod LockRequest
mod Logon
mod Config
