-- ===== src/Management.antt =====
-- management/handler.go: the HTTP API over the store. The path and the bodies are bytes; the JSON
-- and the multipart decoders of Go are arguments, by what they return.
pub mod Routes
pub mod Api
