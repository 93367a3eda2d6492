-- ===== src/Lib.antt =====
-- udprelayd: a daemon that carries UDP datagrams over several slow and unstable connections. One
-- node numbers each datagram and sends it through every relay, the other takes the first copy of
-- each number and forwards it without the number.
--
-- The parts, and the files that model them:
--
-- Base: Boolean tests, list lemmas and signed numbers that the parts share. Machine numbers are
-- natural numbers; the 16-bit number of a packet wraps around where the code adds to it.
--
-- Clist (clist.h): each macro is a command on a heap of nodes with `_prev` and `_next`; to
-- follow `NULL` or a freed node is a fault, `none`. Clist/Ring says which heap holds a list as a
-- ring, Clist/Insert, Clist/Delete and Clist/Foreach show that the macros are the list
-- operations, and Clist/AddAfter what CLIST_ADD_AFTER does. Clist/Drain is about the loops that
-- unlink and free the first item until there is none. CLIST_FOREACH and these loops take fuel:
-- one more than the length of the list is enough. On this ground the other parts keep their circular
-- lists as plain lists, with the head pointer at the first item: CLIST_ADD_LAST appends,
-- CLIST_DEL removes, and `list = list->_next` turns the list by one.
--
-- Lookup (seen_lookup.c): new_lookup and lookup_push over the pool of items, the free list, the
-- list in income order and the tree. Items are indices into the pool. The red-black tree that
-- sglib.h generates is a parameter, the record RbTree in Lookup/Tree; Lookup/ListTree is one
-- that fills it, and Lookup/Compare is about the comparator. Lookup/Window has the invariant and
-- the numbers remembered, Lookup/Push each branch of a push, Lookup/Runs a whole run against a
-- specification on a plain list (`dedup`), Lookup/Bounds the extreme sizes.
--
-- Os: the calls of the C library and the kernel. `sendto` and `recvfrom` take their results from
-- the kernel's answers, two functions of the number of the call, and `log` records every
-- datagram offered and every descriptor closed. All theorems hold for all answers that they do
-- not restrict.
--
-- Relay (relay.h, relay.c): the state of one socket and relay_queued, relay_fd_set,
-- relay_enqueue, relay_receive, relay_handle, free_relay and relay_remote_sa. A long function is cut at its
-- comments and branches: relay_handle is read_event and write_event, relay_enqueue calls hold.
-- Relay/Invariant has the sizes of the buffers, Relay/Fifo and Relay/Runs the order of what a
-- relay holds back, Relay/Writes the write event against a queue, Relay/Datagrams the way of one
-- datagram in, and Relay/Answers which answers are failures. A buffer of `malloc` starts with no
-- bytes, and every read of it is of bytes written before.
--
-- Utils (utils.c): xstrdup, strdup_printf, strconcat, strappend and str_index. A pointer to
-- characters is the list of the bytes from there on, and a read behind its end is a fault;
-- Utils/Append, Utils/Printf and Utils/Index are about these reads, and about str_index as the
-- search in a list of words. What strdup_printf's format gives in full is an argument.
--
-- Unix, Process (utils.c): spawn_and_wait, pipe_open, spawn_bg and xdaemon, with a definition for
-- each of the processes of a function. A process has a table of descriptors; what system calls
-- answer is given in advance, pipes hold bytes, and a read that can never return is `blocked`.
-- `fork` runs the other process to its end first, which loses nothing, since the processes meet
-- only in calls that wait. Process/Table and Process/Pipes are about tables, Process/Detach about
-- xdaemon, Process/Spawn about the functions with one fork, and Process/Carries,
-- Process/Background, Process/Result and Process/Verdict follow spawn_bg.
--
-- Config (config.h, config.c): parse_config on the bytes of the file. Config/Bytes has fgets,
-- strchr, strtok_r and strtol, with the conversion of its `long` to an `int` of 32 bits.
-- Config/Words, Config/Args, Config/Lines and Config/Files compare the parser with a
-- specification on the words of the lines; Config/Tokens and Config/Total are about every file.
-- The loops take as fuel the length of what they read, and one more. A line of a file in
-- Config/Files ends in a newline, and its words have a space behind each. Config/Printer writes a
-- configuration as such a file, with Config/Decimal and Config/Strtol for the number of the track
-- line, and Config/RoundTrip reads it back. Config/Fields and Config/Text are about any file whose
-- lines fit the buffer, by its lines and the parts between their white space.
--
-- Daemon (udprelayd.c): the state `Udprelay`, dispatch_relayed, dispatch_inbound and the
-- descriptor sets; Daemon/Loop has a round of the main loop, with what `select` returned and
-- whether a signal has come as its inputs, the loop over a list of such inputs, and
-- udprelay_cleanup. Daemon/Header is about the number of a packet, Daemon/Sends about what the
-- log says was offered, Daemon/Inbound about the way from the outward socket to the relays,
-- Daemon/Relayed and Daemon/Deliver about the way back, and Daemon/Select about the arguments of
-- `select`. `none` is a read through `NULL`.
--
-- Daemon/Benign says what a kernel without failures is, Daemon/Drains when the
-- queue of a relay empties there, Daemon/Serving has the invariant of the whole daemon and its steps,
-- with Daemon/Packets, and Daemon/Rounds the main loop.
--
-- Net: the resolver and the calls on sockets that make a relay. They answer by the number of the
-- call, and a log has the descriptors and address lists acquired and given back.
--
-- Setup (relay.c, udprelayd.c): new_relay and udprelay_init. Setup/Counts and Setup/Results have
-- rules for the descriptors a command owns and for its result; Setup/Create and Setup/Init are
-- about descriptors, Setup/Modes and Setup/Start about the relays and the daemon returned,
-- Setup/Peers about the address that a relay is bound to and its peer, and Setup/Leak about the
-- resolver's address lists.
--
-- Descriptors (udprelayd.c): which descriptors the daemon holds and which its log has closed, by
-- rules for commands, through the rounds of the main loop to udprelay_cleanup.
--
-- Memory (relay.c, config.c, seen_lookup.c, udprelayd.c): the objects as named blocks, and
-- free_relay, free_config, free_lookup and udprelay_cleanup on them; to free a block twice is a
-- fault.
--
-- Program (udprelayd.c): from a configuration through udprelay_init into the main loop;
-- Program/Start has the options and the exits of main, Program/Stops its end by a failure or a
-- signal. Program/Signals has `sigterm_evt` and its handler: an input of a round is then when signals
-- come, before `select` waits, while it does or after, and what it waits for, if ever.
-- Program/Detached has the call of xdaemon and the descriptors of the process, which sees the closes
-- of the loop's log, Program/Main puts main together, Program/Empty is about an empty datagram, and
-- Program/Usage has the text that usage prints. A signal before main has installed its handler is
-- left out.
--
-- Not modelled: sglib.h, a copy of another project's library; the log lines, the other texts on
-- standard output and error, and everything under DEBUG.
pub mod Base
pub mod Clist
pub mod Lookup
pub mod Os
pub mod Relay
pub mod Utils
pub mod Config
pub mod Daemon
pub mod Net
pub mod Setup
pub mod Descriptors
pub mod Memory
pub mod Unix
pub mod Process
pub mod Program
