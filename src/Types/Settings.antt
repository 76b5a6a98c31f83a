-- ===== src/Types/Settings.antt =====
-- web/lib/types.ts, lines 547 to 600: settings, as the API serialises them.
