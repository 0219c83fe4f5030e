-- ===== src/Lib.antt =====
-- A model of the core of Blitzed Services, the IRC services daemon of this repository.
--
-- The daemon is one process on a socket to an IRC server. A line comes in through the circular
-- read buffer and sgets2 (src/sockutil.c), is taken apart by process and split_buf
-- (src/process.c) and goes to a handler. The handler of MODE, do_cmode (src/channels.c), updates
-- the record of the channel and then calls check_modes (src/chanserv.c), which brings the channel
-- in line with its mode lock and sends MODE commands of its own; taking off a wrong key calls
-- do_cmode again. Users who join and leave go through chan_adduser and chan_deluser.
-- chan_update_events walks over the channels from time to time, sets limits and takes out old
-- bans by way of do_cmode. check_timeouts (src/timeout.c) runs the routines that are due. What is
-- sent goes through the circular write buffer (src/sockutil.c). Masks are compared by match_wild,
-- nicks and channel names by irc_stricmp (src/misc.c).
--
-- Text: src/misc.c (toupper to strscpy, stristr) and src/compat.c (stricmp). A C string is the
--   list of the bytes in front of its NUL, numbers from 0 to 255. Text/Fold: the comparisons;
--   Text/Search: stristr.
-- Wild: do_match_wild of src/misc.c, one helper for each case of its switch. Wild/Pattern has the
--   relation of patterns and strings, and Wild/Complete its laws. The recursion is on the
--   pattern, so that it ends without fuel.
-- Socket: src/sockutil.c. Memory is an array as a function with memcpy. Write: WriteBuffer is
--   write_netbuf, write_curpos, write_bufend and total_written; fill is the upper half of a turn
--   of the loop of buffered_write (fill_top, chunk, copy_chunk), flush_write_buffer the lower
--   half, and write_loop the loop, one reply of select() and write() for each turn: when the
--   replies run out there is no outcome. Write/Fill: what waits in the buffer, as a list;
--   Write/Flush, Write/Run: the socket's part, and whole calls. Read: ReadBuffer, refill (the
--   inner loop) and buffered_read_one over a list of replies of read(); Read/Refill: its list
--   view. Line: sgets and sgets2 over any reader of characters; Line/Reads: what comes out. The
--   offsets wrap at 2 ^ 64 and size_error is the size_t of an error of -1.
-- Channel/Defs: struct channel_ of include/services.h, without links and the topic; a user is a
--   number, the mode a set of flags. Channel/Members: chan_adduser and chan_deluser, with
--   Members/Removal on the consistency of the lists of users, operators and voiced users.
-- Channel/Modes: the loop of do_cmode, a function for each letter with a parameter. Env holds
--   finduser and the nicks (src/users.c), check_valid_op (src/chanserv.c), strtoul and the clock.
--   Modes/Effect: the flags afterwards; Modes/Args: the parameters; Modes/Lists: operators and
--   voices.
-- Channel/Lock: check_modes, and do_cmode as a whole. Mlock is the row of the channel in the
--   database. fuel counts the nested calls; two are enough, since the inner call finds no key
--   that is wrong. Lock/Turn: the runs over the ten flags; Lock/Obeys: the result; Lock/Bans: the
--   bans. Lock/Room: the 32 bytes of newmodes.
-- Channel/Table: chanlist, findchan, firstchan and nextchan; scan counts down the 1024 buckets,
--   and visit, on fuel, is the loop that the callers write; the number of channels is enough.
--   Table/Walk: what a walk sees.
-- Channel/Events: check_autolimit and chan_update_events, over a list of the channels that
--   firstchan and nextchan give. Events/Limit: the limits; Events/Expiry: the bans.
-- Access: get_access, check_access, check_valid_op, check_should_op and check_should_voice of
--   src/chanserv.c, on a record of what the database and the user's record say (Facts).
--   Access/Ops: how they agree.
-- Process: process up to the call of the handler, and split_buf, on fuel: the length of the
--   buffer is enough, as every turn takes at least a byte off. Process/Lines: round trips.
--   Process/Ignore: add_ignore and get_ignore; Ignore/Time: what the second finds of the first.
-- Timeout: the list of src/timeout.c, which check_timeouts walks by addresses. The routines are a
--   parameter that changes a state of its own and adds and deletes timeouts; the walk is on fuel, for
--   which the length of the list is enough. Timeout/Walk: the list under the walk; Timeout/Check:
--   what a run amounts to.
-- Cache: src/cache.c, nodes in a memory of addresses, with 151 heads. The loops run on fuel, one
--   more than the length of the chain. The database gives a row or none. Cache/Chain: what a chain
--   in order is; Cache/Find, Cache/Insert, Cache/Coherent: finding, and inserting in order;
--   Cache/View, Cache/Refine: the map from nick IDs to entries behind it; Cache/Init: the cache at
--   the start, and the setters; Cache/Delete: nickcache_del.
-- Sessions: add_session and del_session of src/sessions.c on the table of the database, with the
--   exceptions, the matching of masks (IRC_MATCH) and the configuration as arguments.
--   Sessions/Limit: users who connect and quit, as a step relation.
-- Users/Mask: match_usermask, split_usermask, create_mask, is_banned and count_mask_matches of
--   src/users.c, with the strtok, strchr, strrchr and atoi of the C library. What C leaves undefined
--   is `none`. Mask/Match: masks put together from their parts; Mask/Dots, Mask/Create: what
--   create_mask makes of a host; Mask/Bounds: its buffer.
-- Users/Opers: new_user, delete_user, finduser, do_quit and do_umode of src/users.c, with usercnt and
--   opcnt. The table is the list that a search goes through; +R is only the flag. Opers/Count: the
--   counts; Opers/Reach: users who come and go, as a step relation.
-- Servers: src/servers.c, servers in a memory of addresses; the pointers prev and next are a list of
--   addresses. The loops run on fuel: one more than the servers that they visit. Servers/Forest: what
--   is linked behind a server; Servers/Siblings: the children of a hub; Servers/Squit: do_squit;
--   Servers/Join: do_server; Servers/Find: findserver; Servers/Root: a server without a hub.
-- Commands: src/commands.c, with routines and privileges as functions on a state of any type.
--   Commands/Run: when a routine runs.
-- Akill: src/akill.c on the table of the database. IRC_MATCH is match_wild_nocase. Akill/Check: users
--   who connect. Akill/Command: AKILL ADD, with the configuration, dotime and the users as arguments;
--   Command/Limits, Command/Total, Command/Permanent: what an oper can set.
-- Flood: src/floodserv.c on channels, with add_akill of Akill. kill_user takes the user off at once.
--   Flood/Texts: the list of texts; Flood/Run: a text that is said again; Flood/Limit: up to the line
--   that makes a flood.
-- NickServ: the links of nicks in src/nickserv.c: LINK, UNLINK, and the loss of a nick, on the tables of
--   the database. check_chan_limit, finduser, SHA1 and the escaping of strings are arguments.
--   NickServ/Rows: the statements; NickServ/Links: any sequence of commands, as a step relation;
--   NickServ/Flat: one level of links.
-- NickServ/Enforce: who may use a nick: validate_user, cancel_user, and the timeouts that force a change
--   of nick and give it back. A status is a set of bits, in the table and in a map for the cache of
--   src/cache.c, whose entries are young. Enforce/Commands: IDENTIFY, RECOVER and RELEASE,
--   with the kill after too many wrong passwords, as far as it concerns the nick and the list of
--   users; Enforce/Status: changes of bits; Enforce/Safe: what a user finds who takes a nick;
--   Enforce/Identify: IDENTIFY; Enforce/Late: who does not identify in time; Enforce/Stale: what is
--   left behind.
-- MemoServ: SEND, DEL and SET LIMIT of src/memoserv.c, with rot13 of src/misc.c. mysql_build_query
--   (src/mysql.c), which turns a list of numbers into a condition, is an argument. MemoServ/Numbers: the
--   numbers of memos; MemoServ/Room: how many arrive; MemoServ/Limit: SET LIMIT.
-- Actions: bad_password of src/actions.c, with the kill as an answer. Actions/Limit: how many wrong
--   passwords are let through.
-- Base: the names that all share, numbers, Boolean tests, lists and strings.
--
-- Left out: the database and its SQL (src/mysql.c), what is printed, logged or sent as notices,
-- the configuration, languages and start (src/config.c, src/language.c, src/init.c, src/main.c),
-- most commands of the services (src/chanserv.c, src/nickserv.c, src/memoserv.c, src/operserv.c
-- and others), and copies of other projects (src/sha1.c, src/tools.c, src/vsnprintf.c).
-- Allocation does not fail: src/memory.c ends the program in that case. The creation of a
-- channel, the handlers of NICK, JOIN, PART and KICK (src/users.c), nickcache_delall, and buffered_read,
-- which nobody calls, are not modelled.
pub mod Base
pub mod Access
pub mod Actions
pub mod Akill
pub mod Cache
pub mod Channel
pub mod Commands
pub mod Flood
pub mod MemoServ
pub mod NickServ
pub mod Process
pub mod Servers
pub mod Sessions
pub mod Socket
pub mod Text
pub mod Timeout
pub mod Users
pub mod Wild
