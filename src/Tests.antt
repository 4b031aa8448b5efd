-- ===== src/Tests.antt =====
-- Tests: the theorems at concrete inputs, and runs of the definitions.
mod Data
mod Sse
mod Index
mod Run
mod App
mod Recovery
mod Markers
mod Titles
mod Threads
mod Client
mod Files
mod Parts
