-- ===== src/Lib.antt =====
-- aura-old: a verification library for the I/O server `aura` and its uRPC plugins.
--
-- The program is a Lua host. Its I/O server (src/ioserver) runs an epoll main loop; descriptors hook
-- into the loop with a handler each. `asyncio.c` makes a byte stream of such a hook: chunks
-- (`chunk.c`, `include/aura/chunk.h`) are queued for transmission, and bytes that arrive are
-- collected in a receiver chunk until as many as were asked for are there, when the client's
-- `handle_data` is called. The uRPC plugin (src/plugins/urpc) lets a Lua script call the methods of a
-- device over a transport, such as a serial line: a format string such as "1d;s;" is compiled to an
-- array of functions (`urpc_argcache`), and a call's arguments are packed by that array into a chunk,
-- which a transport plugin sends through `asyncio.c`. The serial transport talks to a device in frames:
-- it first asks for the device's features and its objects, and then calls them.
--
-- The files, in the order in which they build on one another:
--
--   Base            native numbers, lists measured by them, C's integers and bytes in memory
--   Chunk           src/ioserver/chunk.c and include/aura/chunk.h: `allocate`, `realloc`, `get`, `put`
--   Lua             the Lua C API as an interface; no implementation is assumed
--   Urpc.Kind       the argument kinds
--   Urpc.Words      `__swap16`, `__swap32` (include/aura/urpc.h), `host_is_little_endian`
--   Urpc.Codec      the fourteen urpc_pack_* and urpc_unpack_* functions of
--                   src/plugins/urpc/datahelpers.c
--   Urpc.Format     `strdlmcnt` and `urpc_argcache` of the same file, with `strtok` and `sscanf`
--   Urpc.Marshal    `urpc_pack_data` and `urpc_unpack_data` of the same file
--   Urpc.Object     `struct urpc_object` of include/aura/urpc.h
--   Urpc.Instance   opening, discovery and calls for Lua in src/plugins/urpc/urpc.c
--   Urpc.Transport  `struct urpc_transport` of include/aura/urpc.h as an interface with its promise, and the
--                   framework on it; Urpc.Null.Transport and Serial.Transport meet it
--   Urpc.Null       src/plugins/urpc-null/urpcnull.c
--   ListHead        the linked list of include/aura/list.h as an interface
--   Loop            src/ioserver/main_loop.c: hooks, EPOLLOUT, the main loop; Loop.Set has the hooks in
--                   the epoll set that they share, Loop.Runs and Loop.Dispatch runs on several hooks
--   Async           src/ioserver/asyncio.c and include/aura/asyncio.h; Async.Armed is about the kernel's
--                   interest in EPOLLOUT, Async.Drain about the way of a chunk out, Async.Sides and
--                   Async.Steady about a transfer that reads and writes in turns
--   Serial          src/plugins/urpc-serial/serial.c: the receiving state machine, discovery, and the
--                   frames of calls; Serial.Wire is the specification of what a device's bytes mean,
--                   Serial.Conversation and Serial.Discovery are about whole exchanges, Serial.Open is
--                   `urpc_serial_open`, Serial.Events has the waits with both kinds of events,
--                   Serial.Exchange a discovery with its request on the line, Serial.Counted the count
--                   of one with a device that sends anything, Serial.Sent a call and its
--                   way to the device, Serial.Reply a call and the wait for its reply, and
--                   Serial.Session puts opening, discovery, the table for Lua and a call together
--   Hooks           src/ioserver/hooks.c: the list of functions registered with Lua
--   Uart            `urpcserial_make_settings` of src/plugins/urpc-serial/uart.c; Uart.Fields is the
--                   reference that it is compared with, Uart.Termios has `urpcserial_uart_init` and the
--                   server's `uart_init`, Uart.Host the server's own parser of settings,
--                   src/ioserver/uart.c
--   Ioserver        the instruction limit (src/ioserver/lua_perflimits.c), options, scripts and the
--                   interactive shell (main.c), the loading of plugins (plugin.c), and the ports, the
--                   sessions, the history, Lua's streams and the clients of network.c, with tcp.c's
--                   `aura_setup_client`; Ioserver.Sessions is the whole of `network_init`, and
--                   Ioserver.Dialogue the reference that it is compared with
--   Tests           concrete instances and runs
--
-- State is passed explicitly: a `Chunk` and an `Xfer` are records with the fields of the C structs, an
-- operation takes the old one and returns the new one. What the kernel, the allocator and the device
-- answer are arguments. A NULL dereference or a store outside a heap block is a value (`none`, or a
-- constructor such as `crash`, `fault`, `outside_block`, `outside_array` or `overrun` where faults are told
-- apart), so that a theorem can exclude it.
--
-- Bounds. Sizes and counts are natural numbers: the sizes of buffers are taken to stay below the
-- range of `int`. Words keep their width: the packers reduce modulo 2 ^ 8, 2 ^ 16 and 2 ^ 32, and
-- unpacking reads two's complement. Values of Lua numbers behind the point, and numbers that no `int`
-- holds, are outside the model. The packing loop of `urpc_pack_data` runs on fuel, one unit for each
-- call of a packer: a call that is repeated moves on to the next argument, and above the top of the
-- stack a number fits once the chunk has grown, so two calls for each entry and one for each value on
-- the stack are enough where the chunk can grow. The walk over the registered functions runs on fuel
-- for one round each. All other recursion is structural.
--
-- `network.c`, `azra.c` and src/ioserver/uart.c are not built by src/ioserver/Makefile.am; the first and
-- the last are modelled as they stand. Lua, the loader of libraries, `cfmakeraw`, the kernel's epoll set
-- and the list of include/aura/list.h are interfaces: records of operations with the laws that their documentation
-- states, and every theorem holds for whatever meets them.
--
-- Not modelled: output of any kind; `azra.c`, an older `main`; in `network.c`, `dump_table`, which
-- only prints, and the streams of `aura_server_init`, which are the C library's; `main_loop.c`'s
-- `aura_init_loop` and `aura_make_fd_nonblock`, which are single system calls; the rest of the plugin tcp
-- and the plugin dummy, which only register themselves, with tcp.c's own copy of `hackio`, which nothing calls; and the Lua scripts under lua/. The list of
-- include/aura/list.h is the Linux kernel's, and stands as an interface.
pub mod Base
pub mod Chunk
pub mod Lua
pub mod Urpc
pub mod ListHead
pub mod Loop
pub mod Async
pub mod Serial
pub mod Hooks
pub mod Uart
pub mod Ioserver
pub mod Tests
