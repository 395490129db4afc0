-- ===== src/Lib.antt =====
-- The interpreter of the b6b scripting language, as a library of definitions and theorems.
--
-- A b6b script is a list of statements, a statement is a list of words, and every value is an
-- object that may have a text, a list, an integer and a float for its representations. The parts,
-- and the files that model them:
--
--   CLib          what the code uses of the C library and of the processor: strtod, printf of a
--                 double, the operations on doubles, mblen, and the contents of files that
--                 `source` reads. It is a record that the definitions take as an instance
--                 argument. A double is a number, its 64-bit pattern.
--   Store         include/b6b/obj.h, frame.h, interp.h, core.h: struct b6b_obj (Obj),
--                 struct b6b_frame (Frame), struct b6b_interp with its thread (State), enum b6b_res
--                 (Res). A pointer to an object is a number (Ptr), and the state maps it to the
--                 object, so that objects are shared as in the code. Store/Monad has the monad: a
--                 function of the state that ends with a result and a state (done), runs into
--                 undefined behaviour (fault), or out of fuel (timeout). Store/Gives has rules for
--                 what the result satisfies, Store/Keeps for what the state keeps.
--   Hash          src/b6b_hash.c and include/b6b/hash.h, on 32-bit words.
--   Text          the format of list texts: Text/Print is the loop of b6b_as_str in
--                 src/b6b_str.c, Text/Parse is b6b_do_as_list in src/b6b_list.c.
--   Object        b6b_as_str, b6b_as_list, b6b_as_int, b6b_as_float, b6b_obj_hash and the basic
--                 list operations; Object/Args is b6b_list_vparse and b6b_proc_get_args.
--   Str           src/b6b_str.c: Trim, Split, Expand and Search are the loops of the procedures,
--                 Procs are the procedures, Decode is b6b_str_decode.
--   Lists         src/b6b_list.c: Ops are the operations, Procs the procedures.
--   Dict          src/b6b_dict.c: Ops and Procs; Ops/Model is what they promise, a list of pairs.
--   Interp        src/b6b_interp.c and src/b6b_frame.c: Frame (the call stack and variables), Eval
--                 (b6b_eval, b6b_stmt_call, b6b_call), Tables (the tables of built-in objects),
--                 Dispatch (the procedures behind o->proc, and the recursion), Boot
--                 (b6b_interp_new), Main (b6b_interp_new_argv, and the options, the shell and the
--                 exit status of src/b6b.c), Nested (an interpreter in another one, `b6b`, whose
--                 state shares the objects and has the rest for itself), Complete
--                 (the completion of words in src/b6b.c).
--   Control       src/b6b_core.c, b6b_loop.c, b6b_exc.c, b6b_logic.c, b6b_math.c, b6b_proc.c;
--                 Control/Source is b6b_source.
--   Strm          src/b6b_strm.c and include/b6b/strm.h. A stream is a record of operations on a
--                 device, which are none where the code's pointer is NULL. Strm/Procs is the
--                 procedure of a stream, Read and Write its two loops with what they compute from
--                 a device that keeps the contract of Contract, and Flags what a call does to the
--                 stream's flags, by the rules of Leads.
--   Device        src/b6b_stdio.c and src/b6b_file.c: streams over the FILE of the C library, which
--                 is the record CFile. Stdio has the operations, File and Open the procedures that
--                 open; Refines and Writes set the operations against the contracts of Strm. Fd is
--                 src/b6b_fdops.c and src/b6b_sem.c: streams over a descriptor, whose system calls
--                 are the record Descriptor, with Number on 64-bit numbers, Sem
--                 on semaphores and End on the end.
--   Ffi           src/b6b_ffi.c: the values of C types in memory; Struct is `ffi.pack` and
--                 `ffi.unpack`, Calls what uses libffi, the dynamic linker and the memory of the
--                 process, which are the record Process. The conversions between double and float
--                 are the record Floats. Encode and RoundTrip are about the bytes of values.
--   Rand          src/b6b_rand.c; rand_r is a parameter.
--   Zlib          src/b6b_zlib.c: Deflate and Inflate, over miniz, which is the record Miniz.
--   Socket        src/b6b_socket.c: addresses and peers, Ops the operations of streams, Open how a
--                 client or a server is opened, Choose and Procs the procedures, Order the byte
--                 orders. The calls on a socket are the record Sockets, and those that make one the
--                 record Network, with the table of descriptors for its state; Safe is about that
--                 table, and Transfer sets a connection against the contracts of Strm.
--   Poll, Sh, Signal, Time, Path, Linenoise
--                 src/b6b_poll.c, b6b_sh.c, b6b_signal.c, b6b_time.c with b6b_timer.c, b6b_path.c and
--                 b6b_linenoise.c; what they call of the system is a record in each (Epoll, Shell,
--                 Masks, Clock, Editor). Sh/Leak is about the table of descriptors, Sh/End
--                 about their ends, Poll/Sorted about the loop over events.
--   Thread        include/b6b/thread.h, src/b6b_thread.c, and the scheduler of src/b6b_interp.c:
--                 the list of threads, which one a thread yields to and when. Fair and Quantum are
--                 about the order of the threads, Kept about the list.
--                 Thread/Offload and Thread/Once are the handshake of src/b6b_offload.c between a
--                 thread and the worker that runs its system calls, as a relation of steps.
--                 Thread/Await is b6b_offload of src/b6b_interp.c, which hands a function over and
--                 polls; what the other threads and the workers do while it yields is the record
--                 Beside. Await/Switch, Loops and Total are about its ends.
--                 Thread/Join is `spawn` of src/b6b_core.c, and b6b_join, where the other threads
--                 end; Join/Scan, Chain and Alone are about its loop.
--   Keeps         in several folders: the procedures of the parent leave the call stack alone.
--                 Store/Keeps has the rules, Interp/Words and Interp/Balance the statements, and
--                 Interp/Dispatch/Keeps joins them.
--   Base          shared names, lists, Boolean tests, signed integers and words in memory.
--   Tests         scripts run in a new interpreter; Examples has theorems at concrete inputs.
--
-- A procedure of the code is a definition of the same name without b6b_: str_proc_split is
-- b6b_str_proc_split. It takes the fuel, the arguments as a list object, and, where it runs
-- script, b6b_call or b6b_eval as a function. The callers are joined as in the code: stmt_call
-- evaluates the words, and the first word's object says which procedure runs.
--
-- The build that is modelled has B6B_OPTIMISTIC_ALLOC, so allocation succeeds. The evaluator is
-- that of a build without B6B_HAVE_THREADS, and the scheduler and the offloading that
-- B6B_HAVE_THREADS adds are modelled beside it; tracing is off. Objects are never freed: reference
-- counts, the destructors and b6b_frame_destroy are left out. A walk over a list goes over the
-- items that the list has when the walk begins, but for list.extend, whose walk is modelled item by
-- item. `range` faults where the next value is past LLONG_MAX. The switch of machine contexts and
-- the child of `sh` are not modelled, nor are the coroutines of b6b_co.c, the event loop of
-- b6b_evloop.c, and ffi.ptr and ffi.call, which are scripts in the C text. b6b_syscall and
-- b6b_offload stand in the models of their callers as the call that they make.
-- Of `sh` the parent is modelled, without the wait for the child. The procedures that work on
-- the system take its state as an argument, W or D, and give it back with their result; they are not
-- among the procedures that Dispatch calls, since that state is outside the interpreter's.
--
-- Fuel: as_str counts the nesting of lists in lists, stmt_call the nesting of calls, which the code
-- bounds by B6B_MAX_NESTING; the loop of `loop` counts its rounds. The loops over a text start with
-- one more than its length, and range with one more than its values. The loop of strm_read starts
-- with one more than the bytes wanted and that of strm_write with one more than the bytes given,
-- since each round moves a byte or ends the loop. The fuel of `accept` bounds the connections that
-- wait. The loop over the input of mz_deflate starts with one more than its length and the buffer's
-- size together, since each call moves a byte or ends the loop; the fuel of inflating bounds the
-- calls of mz_inflate, that of `sleep` the calls of nanosleep, that of b6b_offload the rounds of
-- either of its loops, and that of b6b_join the threads that run. A result of `timeout` stands for
-- fuel that was too low, or for a loop that never ends.
pub mod Base
pub mod Text
pub mod Hash
pub mod CLib
pub mod Store
pub mod Object
pub mod Str
pub mod Thread
pub mod Strm
pub mod Device
pub mod Ffi
pub mod Rand
pub mod Zlib
pub mod Socket
pub mod Poll
pub mod Sh
pub mod Time
pub mod Signal
pub mod Path
pub mod Linenoise
pub mod Lists
pub mod Dict
pub mod Interp
pub mod Control
pub mod Tests
pub mod Examples
