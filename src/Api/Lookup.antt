-- ===== src/Api/Lookup.antt =====
-- Calls of the C interface with a descriptor that is no socket, and what a call leaves of the
-- others.
