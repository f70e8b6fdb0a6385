-- ===== src/Namespaces/Everywhere.antt =====
-- A new namespace is sent to every cluster below the root.
