-- ===== src/Tests.antt =====
-- Runs of the modelled code on concrete inputs, and the theorems at inputs that meet their hypotheses.
mod Http
mod Memory
mod Fastcgi
mod Websockets
mod Json
mod Files
mod Connection
mod Workers
mod Upgrade
mod Server
mod Stored
mod Values
mod Serving
mod Clients
mod Whole
mod Threads
