-- ===== src/Signals.antt =====
-- Handlers that are added, called and removed: pkg/helper/hook.go (pkg/tools/hook.go is the same code
-- under other names), and pkg/sim/hook.go, emitter.go and service.go.
pub mod Hook
pub mod Emitter
pub mod Service
