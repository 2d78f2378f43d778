-- ===== src/Sensor/Locks/Lost/Tests.antt =====
-- A reading that comes before the processor has sent.
