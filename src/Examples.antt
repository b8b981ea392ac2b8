-- ===== src/Examples.antt =====
-- Runs of the development on concrete values, one module for each part of the program.
pub mod Floats
pub mod Values
mod WsClient
pub mod Market
mod Workers
mod Runs
mod Orders
mod Retry
mod Client
mod Crypto
mod Trades
pub mod Prices
mod Tags
mod Relayer
pub mod Headers
pub mod Build
mod Create
