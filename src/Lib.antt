-- ===== src/Lib.antt =====
-- The C library and compiler runtime of lamp-userspace: a model of lib/ for a 32-bit machine that
-- has no 64-bit integer and no double-precision instructions.
--
-- The parts and their files:
-- - DivMod, lib/compiler_rt_divmod.c: the compiler turns 64-bit division, remainder, shifts and
--   multiplication into calls of these functions. `__udivmoddi4` is `udivmoddi4` and returns the
--   remainder that the source stores through a pointer; the other names lose their underscores.
--   The two loops of the division are `while` with `can_scale` and `scale`, and `restore`.
-- - Ctype, lib/libc_string.c, lines 135 to 144: the ASCII tests that the patterns use.
-- - Regex, lib/libc_regex.c: `regcomp` compiles a POSIX pattern to instructions, which `regexec`
--   runs. Regex.antt has the instructions and the character sets, Regex/Compile.antt and its
--   children the compiler, Regex/Exec.antt the matcher `re_run` as `run`, Regex/Search.antt
--   `regexec`. Regex/Nfa.antt says what a program accepts, and which captures the saves on an
--   accepting way leave: it is a nondeterministic automaton over pairs of an instruction and a
--   position, with the tests of a single instruction, `consumes` and `holds`, from the matcher.
--   Regex/Search/Copies.antt says what `pmatch` holds.
-- - SoftFloat, lib/compiler_rt_softfloat.c: doubles as bit patterns. SoftFloat.antt has the
--   comparisons and the conversions from and to integers, SoftFloat/Round.antt `df_unpack`,
--   `df_pack` and the two normalizers, SoftFloat/Double.antt the four operations, and
--   SoftFloat/Single.antt the conversions from and to single precision.
-- - Strings, lib/libc_string.c. Strings/Memory.antt has the functions on blocks, on a memory that
--   gives the byte at each address; Strings/Text.antt the functions on texts, where a pointer into a
--   text is the rest of it. `strsep` and `strtok_r` return the token and the new value of the
--   caller's pointer. Strings/Memory/Copy.antt and Strings/Text are the proofs.
-- - Stdlib, lib/libc_stdlib.c. Stdlib/Heap.antt is the first-fit heap: `g_heap_head` is a list of
--   blocks with their addresses in `g_heap`, and the bytes of the blocks stand in a memory of
--   Strings, through which `calloc` and `realloc` call `memset` and `memcpy`. The loop of `free`
--   is `merge`. The children of Stdlib/Heap.antt are the invariant, the lemmas on the two loops,
--   and the proofs for each operation; Stdlib/Heap/Reach.antt has the states that sequences of
--   calls reach. Stdlib/Sort.antt has `qsort` and `bsearch`, Stdlib/Env.antt the environment on
--   top of the text functions, Stdlib/Number.antt `strtoul`.
-- - Time, lib/libc_time.c: `localtime_r` and `mktime`. Time/Years.antt has the arithmetic of eras,
--   years and months, Time/RoundTrip.antt and Time/Range.antt the proofs. Time/Parse.antt is
--   `strptime`; its call of itself for `%F` and `%T` is an argument of `read_format`.
-- - Stdio, lib/libc_stdio.c. Stdio/Output.antt has the functions that put out characters and
--   numbers, Stdio/Format.antt `vsnprintf` on top of them, with what stands before a conversion
--   in Stdio/Directive.antt, Stdio/Scan.antt `sscanf`, with `scan_unsigned` in
--   Stdio/Unsigned.antt, and Stdio/Stream.antt the reading functions of streams. A conversion of
--   `vsnprintf` is a function on the output state `Out`; its arguments are a list. The stores of
--   `sscanf` through its arguments are a list as well. The children are the proofs:
--   Stdio/Output/Emit.antt that each output function appends one text, Stdio/Format/Contract.antt
--   and Stdio/RoundTrip.antt what follows for the two ends, Stdio/Stream/Contents.antt and its
--   siblings what a stream stands for and what is read of it.
-- - Misc, lib/libc_misc.c and lib/libc_syscalls.c. Misc/Inet.antt has the Internet addresses,
--   which use `strtoul` of Stdlib and `vsnprintf` of Stdio; Misc/Getopt.antt is `getopt`, with
--   its variables in a record, and Misc/Getopt/Options.antt says independently what the options
--   of a list of arguments are, with Misc/Getopt/Kinds.antt for the kinds of the letters;
--   Misc/Execvp.antt is the search of `execvp`, on the text functions of Strings.
-- - Prelude: lists under native indices, words, loops on fuel, signed words as integers.
--
-- How the code is modelled. A word is a natural number with its wrap-around written out. Text is
-- a list of character codes without its terminator, which reads as 0 past the end. An array is a
-- list; where the source would leave it, the matcher ends with `fault` and `regexec` with
-- `crash`. What `malloc` and `realloc` return is an argument in Regex: whether a capacity can be
-- had, and the block for the marks with whatever stands in it. In Stdlib/Env whether the heap has
-- room is an argument, and the table says whether it is a block of the heap. The compiler state
-- `re_compiler` is passed from step to step by a monad whose results are those of the C functions
-- and -1.
--
-- What the system does is a parameter: `read` over a state of the system in Stdio/Stream, with the
-- named hypothesis `IsSource` where a descriptor gives what remains piece by piece; `execve` as a function
-- from the path to the error in Misc/Execvp. Without a buffer `vsnprintf` writes to the descriptor -1,
-- which has no effect.
--
-- A write through a pointer that the heap did not give is `none` in `free` and `realloc`, and so
-- is the growth of a table that the heap did not give in `setenv` and `putenv`, and a month
-- behind the table of `mktime` is `none`. The header of a block is no part of the memory of
-- bytes.
--
-- Bounds and fuel. `bsearch` gets one round more than the array has elements; each round leaves
-- less between its bounds. The loops over texts and arrays are recursions on their lists. The first
-- loop of the division and the loop of the multiplication get 65 rounds, one more than a word has
-- bits. A call of `re_run` that does not return at once sets a mark, so `regexec` gives it one more
-- unit of fuel than there are states. The pattern compiler runs on fuel in proportion to the
-- pattern, and the runs of Regex/Tests.antt do not use it up; in general this is open. The loops of
-- the double-precision code that shift until a bit is set run for the width of the number. The loops
-- of `vsnprintf` and `sscanf` over a format get its length, since every round shortens it; `utoa_rev`
-- gets the bits of a word, `fread` the bytes that it is to read, and `execvp` the length of the path.
--
-- Not modelled: `regerror` and `regfree`; the conversion of the offsets to `int`, which is exact
-- below 2 ^ 31; the depth of the C stack that the recursion of `re_run` needs. Null arguments of
-- the functions on texts, but for `strsep`, and of `localtime_r` and `mktime`. Of lib/libc_string.c
-- the copies of texts into memory and the comparisons without case; of lib/libc_stdlib.c the signed
-- conversions, `strtod`, the random numbers and the exit handlers; of lib/libc_time.c what prints
-- dates. Of lib/libc_stdio.c opening, closing and seeking, `getline`, the functions that write, which
-- make one call of `write` each, and `vasprintf`; a field width or precision that leaves the range of
-- `int`. The sets of signals are left for later. lib/libc_compat.c is the library in one file for another
-- program, the same functions over again; the other wrappers of system calls have no logic of their own.
pub mod Prelude
pub mod DivMod
pub mod Ctype
pub mod Regex
pub mod SoftFloat
pub mod Strings
pub mod Stdlib
pub mod Time
pub mod Stdio
pub mod Misc
