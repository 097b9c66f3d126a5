-- ===== src/Proxy/Json/Examples.antt =====
-- A short answer in JSON, over the setup of Proxy/Sink/Examples.
