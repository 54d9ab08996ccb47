-- ===== src/Tests.antt =====
-- Runs of the program on small inputs, and the theorems at inputs that meet their conditions.
mod Fixtures
mod Judging
mod Storing
mod Working
mod Serving
mod Sandboxed
mod Guarding
mod Sweeping
mod Configuring
mod DockerCli
mod Running
mod Registering
mod Pooling
mod Answering
mod Streaming
mod Flowing
mod Integral
