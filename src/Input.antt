-- ===== src/Input.antt =====
-- src/input: touch, scroll and pencil messages as injected mouse and pen input.
pub mod Injector
