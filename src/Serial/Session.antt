-- ===== src/Serial/Session.antt =====
-- From the settings of a serial line to a call of a method that discovery has found: uart.c, serial.c,
-- asyncio.c, main_loop.c and urpc.c together.
use aura_old.Chunk.{Chunk}
use aura_old.ListHead.{ListHead}
use aura_old.Lua.{Lua}
use aura_old.Urpc.Kind.{Kind}
use aura_old.Urpc.Object.{Object}
use aura_old.Serial.{Serial}
