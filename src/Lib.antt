-- ===== src/Lib.antt =====
-- IntenseLogic: the logic of the engine's C code, below the calls of its libraries.
--
-- The parts, and the code that each models:
-- * Array (src/util/array.h): growable arrays. Array/Valid has the representation invariant, the
--   children are named for the macros. All other parts keep their state in these arrays.
-- * Network/Buffer (src/network/buffer.c): a bit buffer over an array of bytes; ilN_buf_in is
--   `write_in`, ilN_buf_writei and ilN_buf_writeu are `writeu`. Network/Packet (src/network/packet.c)
--   is the packet format on it; Packet/Encode and Packet/Decode follow a packet out and in.
-- * Math (src/math): vectors, quaternions and matrices over an interface `Scalar` of the float
--   operations; `IsExact` is arithmetic without rounding.
-- * Common/World (src/common/world.c): positionables in parallel arrays, with a free list.
--   Common/Event (src/common/event.c): handlers, their callbacks and the pending events.
--   Common/Object (src/common/base.c): reference counts, weak references and chains of types.
--   Common/Storage (src/common/storage.c): values, tables and vectors; il_table_mgetv is `getv`,
--   il_table_mgets is `gets`, and Storage/Path follows a dotted key. The hash table is the interface
--   `Uthash`, whose laws are those that its documentation states.
-- * Util/IlString (src/util/string.c): counted strings, with their canary and reference count.
--   Util/LinkedList (src/util/list.h): lists through the items' own pointers. Util/Timer
--   (src/util/timer.h): times. Util/Logger (src/util/logger.c, src/util/log.c): filters, forwards and
--   the ring of messages. Util/Alloc (src/util/alloc.c): allocators over a heap, a parameter.
-- * Asset/Image (src/asset/image.c): channels and pixels.
-- * Asset/FilePath (src/asset/path.c): paths as nodes; ilA_path_string is `parse`, and
--   `parse_plain` where no ~ leads. Asset/Directory (src/asset/union.c, src/asset/prefix.c) looks
--   such paths up; Asset/Obj (src/asset/obj.c) reads obj files, from the lines to the mesh;
--   Asset/Mesh (src/asset/mesh.c) keeps meshes.
-- * Graphics/Queue (src/graphics/context.c): the messages from other threads to the render thread.
--   Each access of either thread to the shared list is a step, so that a reachable state is one of
--   any interleaving. Graphics/Context: the settings and the rounds of that thread, on the messages
--   that it takes from the queue. Graphics/Frames: the frame times. Graphics/Passes (the renderer
--   and the passes in src/graphics): the lists of renderers, positionables and lights.
--   Graphics/Gui (src/graphics/gui/frame.c): frames in frames; a frame is a number, and all of them a
--   function from numbers; Gui/Members changes them. Graphics/Heightmap (src/graphics/heightmap.c): a
--   heightmap and its mesh.
--
-- Conventions. A C function that changes what a pointer refers to is a function from the old state to
-- the new one. `none` is a fault, unless a comment says that it is NULL. Sizes are natural numbers:
-- they stay far below 2^64, and allocation is taken to succeed. Where the code wraps on purpose, the
-- wrap-around is written out.
--
-- Fuel. A loop that does not go through a list runs on fuel: the growth of an array (it adds at least
-- 32 elements a round), the bits of a number (a round writes or reads at least one), the walk of
-- il_world_next (one slot a call), a dotted key (a round takes at least one byte), the copy of a
-- message (an element a round), the forwards of a logger and the frames in a frame (one a level). The
-- theorems give enough of it, or say that none is enough.
--
-- Not modelled: OpenGL, windows and input devices, Lua, libevent and file access; the inside of the
-- hash table, which is a copy of another library; the SSE variants; the printing of messages.
pub mod Base
pub mod Array
pub mod Util
pub mod Network
pub mod Math
pub mod Common
pub mod Asset
pub mod Graphics
