-- ===== src/Lib.antt =====
-- The wire formats of truenas_ros_utils and its PAM client (truenas_pam): the XDR codec
-- (truenas_xdr), the filename metadata record that is written with it (truenas_metafmt), JSON-RPC
-- (truenas_jsonrpc), the command protocol of chronyd (truenas_chrony), the lookups of the name
-- service (truenas_nss), and SipHash-2-4 (truenas_siphash).
--
-- A byte is a natural number, and the hypotheses that need it say that it is below 256. A `u32` or
-- `u64` is a natural number, kept below its modulus by the places that write it; a signed integer
-- is the ℤ of Xdr/Signed, and `as` is written out on it. A `&str` is its bytes, a float its bit
-- pattern, a `char` its code point. `usize` has 64 bits. A method on `&mut self` is a function of
-- the state that returns a result and the state after it, also where it fails (Prelude/Exec).
--
-- Xdr/De is truenas_xdr/src/de.rs. State has the `Deserializer` and its own methods, Visit and
-- Compound the methods of `serde::Deserializer`, and a visitor is the argument that the method
-- calls. Xdr/De itself has `from_bytes` and its kin of truenas_xdr/src/lib.rs. The input is one
-- list and `pos` an index in it, as in the source.
-- Xdr/Ser is truenas_xdr/src/ser.rs, over any writer; `to_bytes` runs it on a vector,
-- `serialized_size` on a counter.
-- Xdr/Codec is what runs through both. Shape has the types that a client can declare, Drive the
-- calls that their impls make on the codec: those of VarOpaque, FixedOpaque and Bounded are from
-- truenas_xdr/src/wrappers.rs, those of derived types, `Vec` and `Option` are what serde
-- documents. Wire is RFC 4506, its padding included, written without the code; what std gives,
-- such as the byte orders and UTF-8, both use. Reads, Readers and ReadsSeq are the decoder's parts
-- on bytes of the right form, Writes the encoder's, and RoundTrip joins them.
-- MetaFmt is truenas_metafmt/src/lib.rs: the shapes of its records, `pack`, `unpack` and
-- `compare_stored`, which call the codec. Jsonrpc/Frame is truenas_jsonrpc/src/frame.rs,
-- Jsonrpc/Request the parser of truenas_jsonrpc/src/request.rs and the id of id.rs, with what
-- JSON-RPC 2.0 asks of both in Spec, Jsonrpc/ErrorObject error.rs, Jsonrpc/Client client.rs,
-- Jsonrpc/Response response.rs and Jsonrpc/Reply reply.rs. What these use of serde_json is the
-- record Json, an argument of every function; the hypotheses on it are equations between its
-- answers.
-- Siphash is truenas_siphash/src/lib.rs, word by word: an array of four words is a record, and the
-- loop over the chunks of the message is `absorb`. Siphash/Message has the words of the paper's
-- section 2, and Siphash/Paper its rounds, written without the code.
-- Chrony is truenas_chrony/src: Code has the enumerations of its reports, Wire the scalars and the
-- reader of wire.rs, Tracking, Auth, Source and Selection the reports with their layouts, Request
-- the datagrams and `decode`, Client the walk of the source list, Exchange the exchange behind
-- each of its calls. A float of the protocol is kept as its coefficient and exponent, a time as
-- seconds and nanoseconds; whether std has room for a time is the argument Clock. In Client the
-- two calls of the walk are parameters that act on a state of any type and may fail. In Exchange
-- what std gives is the record System, an argument: the socket, the clock and /dev/urandom act on
-- a state of any type, and an attempt stops where the source breaks, continues or returns.
-- Pam is truenas_pam/src. Code and Error are error.rs, Conv and Responses are conv.rs,
-- Transaction, Settings and Builder are txn.rs, Worker and Stepped are step.rs, Authenticator and
-- Session are auth.rs. Libpam is what txn.rs calls of libpam, a parameter: a stack of modules is a
-- script that asks the conversation and goes on with each reply. The C heap is passed with each
-- round, and a parameter says which request for memory is served. A `Box<dyn Conversation>` is a
-- state with its method, and a panic of it is an error of its own. A transaction has a list of the
-- calls on its handle, which the source has not and nothing depends on. The worker of an exchange
-- is parked in the conversation, has returned, or came apart; the rendezvous channels leave it no
-- other place where the driver sees it. Whether it answers within a limit, and whether its thread
-- can be created, are parameters. Conv/Rounds has the ways in which a round may end, written
-- without the trampoline. Order has the order of calls that each stage of a login asks for.
--
-- Nss is the part of truenas_nss/src/service.rs and error.rs that decides what a lookup answers:
-- `grow_and_call`, the classification of an answer, `dedup_gids` and the lookups over all modules.
-- A module is a parameter that acts on a state of any type.
--
-- Shapes and lists are finite, and the recursion on them is structural. Two loops have fuel. That
-- of `grow_and_call` in Nss bounds the calls: a buffer of 1024 bytes is at the ceiling after 14
-- doublings, so that 15 are enough. That of `exchange` is a bound on the turns of its receiving
-- loop, since a clock that stood still would let it go on for ever: where each receipt takes at
-- least a nanosecond, fuel above the longest wait in nanoseconds is enough. The decoder's own
-- limit on nesting, 128 by default, is in the model as it is in the source.
--
-- Not modelled: the borrowed arrays and lists of truenas_xdr/src/wrappers.rs and their iterators;
-- the derive macros, which generate code; Display, and conversions between error types of other
-- crates but that of truenas_pam; serde_json itself; in truenas_pam the signal mask of the worker,
-- the scrubbing of a dropped `Secret`, the drop of a `Stepped` in mid-exchange and a null
-- `appdata`; the reply socket of the chronyd client, which is file-system I/O; arithmetic on
-- `f64`; in truenas_nss the loading of modules, the copying of entries out of C structures and the
-- enumerations with their slots. The other crates (truenas_krb5, truenas_gssapi, truenas_mdb,
-- truenas_ktls) are mostly calls of C libraries.
pub mod Prelude
pub mod Xdr
pub mod MetaFmt
pub mod Jsonrpc
pub mod Siphash
pub mod Chrony
pub mod Pam
pub mod Nss
mod Tests
