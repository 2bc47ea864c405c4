-- ===== src/Proxy/Sections.antt =====
-- src/server/InstrumentWorkerProxy.cpp: `execute` and the sections that other threads may come between.
use instrument_script_server.Proxy.{Proxy}
