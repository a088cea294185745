-- ===== src/Instance/Lifetime.antt =====
-- How long an instance lives: `ensureExpiry` of internal/controller/challengeinstance_controller.go,
-- and the lifecycle controller that reads the expiry.
