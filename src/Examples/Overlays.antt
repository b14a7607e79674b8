-- ===== src/Examples/Overlays.antt =====
-- An underlay with frames of 1500 bytes.
