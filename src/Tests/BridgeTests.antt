-- ===== src/Tests/BridgeTests.antt =====
-- A first call through the slot (src/chrono_admin.c).
use chrontabulator.Base.{true}
use chrontabulator.Ctx.{AdminRequest}
use chrontabulator.Startup.Start.{zero_request}
use chrontabulator.Bridge.{Bridge, elsewhere, waiting}

abbrev unused : Bridge
unused = record { req = zero_request; caller = elsewhere; messages = 0; operations = 0 }

abbrev called_request : AdminRequest
called_request = record zero_request { busy = true }

abbrev called : Bridge
called = record { req = called_request; caller = waiting; messages = 1; operations = 0 }
