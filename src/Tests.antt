-- ===== src/Tests.antt =====
-- Runs of the model at concrete inputs, and each result at an input that meets its hypotheses.
mod Storage
mod RateLimiting
mod Sets
mod RedisLimiter
mod Registration
mod ClientAuth
mod Cors
mod Tables
mod Postgres
mod Redis
mod Device
mod Text
