-- ===== src/Docker.antt =====
-- cli-cpp-legacy/src/docker_client.cpp and docker_client.hpp: the client of the Docker Engine API.
pub mod Http
pub mod Params
pub mod Render
pub mod Bodies
pub mod Replies
pub mod Client
pub mod Streams
pub mod Services
pub mod Single
mod Tests
