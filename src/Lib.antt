-- ===== src/Lib.antt =====
-- The SIP stack of belle-sip: its main loop, its transactions, its dialogs, and the lists and texts
-- that they are made of.
--
-- A SIP request is sent or answered by a transaction, which retransmits, times out and ends by
-- timers of the main loop; the transactions of a call update its dialog, which numbers its requests,
-- waits for the ACK of an INVITE and queues transactions while it is busy; and the text of a URI or
-- a header is escaped when it is printed.
--
-- Lists models belle_sip_list_t (src/belle_sip_utils.c) twice. Values has the operations on the data
-- from the first link on, under their names without belle_sip_list_, with Sorted for what they
-- compute. Nodes has append_link, prepend and remove_link on links in memory, where a list is a
-- pointer to its first link and an access to an address without a link is `none`; Links says which
-- links in memory are which list, and Removal and Appending that the operations do what Values says.
--
-- Objects models the named data that src/belle_sip_object.c keeps with an object: Store has the
-- functions under their names without belle_sip_object_, with what the destroy functions are called
-- with as a result; Dict models src/belle_sip_dict.c on top of it. Lookup and Ownership hold what is
-- true of a store and of its history. Parameters models src/belle_sip_parameters.c: Defs has the
-- functions under their names without belle_sip_parameters_, with `print` for belle_sip_snprintf,
-- and Lookup, Printing and Parsing hold the theorems. Names and values there are strings of bytes.
--
-- Channel models src/channel.c. Stream has the input stream of a channel and the functions that collect
-- a body, and Body what is true of bytes that come in pieces. Connection has the state machine, with
-- the names of the functions less belle_sip_channel_: `later` is belle_sip_main_loop_do_later, and the
-- addresses in current_peer and behind it are a list of numbers. Life declares what can happen to a
-- channel as a step relation, with the states in which an error can come as an argument: Moves and
-- Attempts take those in which the channel connects or is ready, Safety and Anytime take any. The
-- resolver answers once, also a channel that has been closed meanwhile. Output has the queue
-- of outgoing messages: `deliver` is a loop over send_buffer, `flush`, `headers_part` and `body_part`
-- are the three parts of _send_message, `send_queue` is the loop of channel_process_queue. What the
-- socket answers is a list of replies. Sending, Queue and Blocking hold the theorems. The loop over
-- the body has fuel: one more than the body has bytes is enough.
--
-- Bodies models src/bodyhandler.c: Memory has the base class with memory bodies, Multipart the bodies
-- made of them, where `proceed` is the second half of belle_sip_multipart_body_handler_send_chunk and
-- `transfer` the loop over the pieces of a body in _send_message, with the sizes that are asked for as
-- a list. What is written and the size that is given back are kept apart. Pieces, Advance, Whole,
-- Again and Exchange hold the theorems. The subtractions of size_t wrap at 2 ^ 64.
--
-- Loop models src/belle_sip_loop.c: Sources has the list of sources and their timers, Iterate has
-- belle_sip_main_loop_iterate, whose three steps are `min_time` and `poll_duration`, `examine_all`
-- with `to_be_notified`, and `notify_all`. A source is known by its id. What poll reports, the times
-- that are read and what a callback does (a list of `Action`) are arguments. Waiting, Notified,
-- Iteration, Drift and Invariant hold the theorems. The timers of the transactions are sources of this
-- loop.
--
-- Transaction/Base models belle_sip_transaction_t (src/belle_sip_internal.h) and what
-- src/transaction.c does for every kind: `terminate` is belle_sip_transaction_terminate,
-- `transaction_notify_timeout` is notify_timeout's wrapper of the same name,
-- `set_transaction_terminated` comes from src/provider.c. Transaction/Server models the server half
-- of src/transaction.c: `send_response` and `on_request` are generic in the kind of transaction, by
-- a record of its virtual functions (ServerVptr), which the two server transactions fill.
-- Transaction/Client models what the client half does with a response and with a channel that gets
-- ready or fails. Transaction/Ict, Nict, Ist and Nist model src/ict.c, src/nict.c, src/ist.c and
-- src/nist.c, one function per handler under its own name. Their Invariant modules declare the
-- events of a transaction as a step relation, and their Traces modules hold what is true of
-- histories.
--
-- Dialog/Defs, Dialog/Update and Dialog/Requests model src/dialog.c. `update` is
-- belle_sip_dialog_update, whose cases by state are `update_null`, `update_early` and
-- `update_confirmed`; the other names are those of the source without belle_sip_dialog_. Invariant,
-- Acks, Peers, Sequence and Queue hold the theorems.
--
-- Provider models the tables of transactions of src/provider.c: Table has the functions under their
-- names without belle_sip_provider_, and what the RFC 2543 hash of a request is is a field of it.
-- Dispatch has the dispatch of requests to transactions and dialogs. Routing, Responses and Acks hold
-- the theorems.
--
-- Text models the second half of src/belle_sip_utils.c: Buffer is a block of memory whose bytes may
-- be unwritten, Noescapes has the tables, Escape has belle_sip_escape with its block and its
-- specification `escaped`, Unescape and Backslash have the inverses. Where the code leaves a block
-- or a text, the result is `none`, and so it is where the int index of belle_sip_escape overflows.
--
-- Conventions. Tags, call ids, contacts and routes are numbers, since they are only copied and
-- compared. What a handler does to its surroundings is appended to a log, the newest entry first, in
-- which the use of a null pointer is the entry `fault`; a function that makes a request answers
-- `crashed` there. A timer is the timeout of its source. The default values of the timers and the
-- answers of the channel, of the provider's search for a channel and of a dialog that an ACK is
-- given to are arguments. The doubling of timers A and E and of the 200 response's wraps at 2 ^ 32
-- where the source has unsigned int; the products of T1 with 64 are taken without overflow. Loops
-- are recursions on the text or the list; the walk of append_link over links in memory and the
-- parser of parameters have fuel: as much as the list has links, and as the text has bytes, is
-- enough.
--
-- Not modelled: the sending half of the client transactions of src/transaction.c; of the channel
-- the search for messages in its input, chunked bodies, the delay of transmissions, the inactivity
-- timer and the public address; listeners of a channel that act on it; bodies of users and files;
-- the provider's dispatch of responses and its authorisation contexts, the resolver, the
-- refresher, the parser and the header objects, which are later parts or input and output; the
-- reference counts and pools of objects, and the data of an object merged into itself; the numbers of dictionaries; the on_remove callback of a
-- source, sources that are added again after their removal, and the binding of poll; listeners
-- that call back into the transaction that tells them; the second update that a queued transaction
-- makes of its dialog when the dialog is deleted; sscanf, which is a parameter with the one
-- hypothesis that it reads two hexadecimal digits.
pub mod Prelude
pub mod Lists
pub mod Objects
pub mod Parameters
pub mod Bodies
pub mod Channel
pub mod Loop
pub mod Transaction
pub mod Dialog
pub mod Provider
pub mod Text
pub mod Tests
