-- ===== src/Ingress/Delivery.antt =====
-- What reaches the engine.
