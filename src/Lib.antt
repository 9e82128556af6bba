-- ===== src/Lib.antt =====
-- pyatv-rs talks to Apple TVs and AirPlay devices. This library covers codecs and ciphers that its
-- protocols stand on, the frames of one protocol, and the choice between protocols:
--
-- * Tlv8 is crates/pyatv-pairing/src/tlv8.rs, the codec of the pairing messages. Tlv8 holds the
--   definitions, under the names of the source but for `set_raw` (set_entry) and `with` (with_tag);
--   the loop of `decode` is decode_loop and add_chunk. Tlv8/Lookup is about the builder and the
--   accessors, Tlv8/RoundTrip and Tlv8/Total about the codec.
-- * Opack is crates/pyatv-opack, Apple's binary serialisation, which the Companion and AirPlay
--   protocols send. Opack/Tags, Value, Objects, Ser and De are the files of the crate of those
--   names. Opack/Spec says which values fit the Rust types, what decoding makes of a value and what
--   it may charge; Opack/Leaf and Opack/Reads decode single values; Opack/Sync relates the tables of
--   the two directions; Opack/RoundTrip follows the encoder through a whole document.
-- * Chacha is crates/pyatv-pairing/src/chacha.rs, the session cipher with its counters. Chacha/Stream
--   is about two ends of a session; Chacha/Toy is a cipher for tests.
-- * Companion is crates/pyatv-proto-companion: Companion/Frame is src/frame.rs and Companion/Codec
--   src/codec.rs, which uses the session cipher (`FrameCodec::encode` is encode_payload).
--   Companion/Codec/Body, Exchange and Partial follow a frame from one end to the other.
--   Companion/Message is src/message.rs and Companion/Protocol src/protocol.rs, from issuing a number
--   to sending; Companion/Protocol/Dispatch has what is done with arriving frames (`pump_inner` is
--   pump_inner with wait_loop) and the calls. Tracked, Answers, Calls and Kept carry the bookkeeping
--   of numbers through the operations, Numbering and Exchange follow a whole request, and Answered
--   follows a response to whoever waits for it.
-- * Raop is crates/pyatv-proto-airplay/src/raop: Raop/Fifo is fifo.rs, the backlog of sent packets
--   (`insert` is insert with evict and store). Raop/Fifo/Refine compares it with a bounded queue,
--   Raop/Fifo/Trace does so over sequences of calls.
-- * Mrp is crates/pyatv-proto-mrp: Mrp/Variant is src/variant.rs, the varints in front of messages.
-- * Core is crates/pyatv-core: Core/Features is src/features.rs, Core/Relayer is src/relayer.rs, which
--   chooses between the protocols' implementations by priority, feature and takeover, and
--   Core/Takeover is src/facade/takeover.rs, which claims the takeover of several relayers at once.
-- * Dns is crates/pyatv-mdns/src/dns: Dns/Reader is reader.rs, the cursor over a message; Dns/Name and
--   Dns/Compress are name.rs, the parser of names (its loop is parse_loop, whose rounds are next_part),
--   the label encoder and NameCompressor. Dns/Name/Spec says which names stand in a message. Dns/Txt is txt.rs, TXT
--   data and its map; Dns/Message is the reading side of record.rs and message.rs.
--
-- Bytes are natural numbers in lists; an index, a length or an integer is a native natural number,
-- with the width of its Rust type written where the code depends on it. Floats are bit patterns and
-- strings their UTF-8 bytes. A buffer that is appended to is a returned list of bytes. State behind
-- a lock is passed explicitly, one operation after the other.
--
-- The loop of the TLV8 decoder runs on fuel, the length of the input, which is enough as each round
-- takes two bytes or more. The OPACK decoder runs on fuel too, twice the length of the input and
-- one: a value takes at least a byte, and so does each round of a terminated container. Running out
-- is the error `stuck`, which the programs do not have.
--
-- The two loops of the varints take ten rounds, as many as a 64-bit number has groups of seven bits.
-- The parser of DNS names runs on fuel: at most 64 jumps are made, and before, between and behind them
-- each label takes a byte at least, so that 65 times the length of the message and one is enough.
-- The loop over TXT data runs as many rounds as the data has bytes, as each chunk takes one at least.
-- Frames that arrive at a Companion connection are a list, and its end is the time limit of whoever
-- waits; a failure to send is a parameter's answer. A hash map is an association list.
--
-- The hasher of the standard library, the size of a `Value` in memory and the authenticated cipher
-- of the chacha20poly1305 package are parameters. Of the cipher it is assumed that what was sealed
-- opens again and that sealing adds 16 bytes. The normalisation of the unicode-normalization package is
-- a parameter, and the punycode decoder of the DNS names stands for any function. The OPACK round trip asks of the hasher that it tells
-- 0.0 from -0.0, of either width, which are equal as Rust values and are interned apart by the
-- encoder.
--
-- Not modelled: `start` of the Companion protocol and its time limit as a duration; the rest of the
-- network protocols; DNS-SD service names, the writing of DNS records and
-- messages, the punycode decoder and the decoding of TXT values; discovery, pairing, storage and user interfaces;
-- `as_f64`, the conversions and the macros of the OPACK crate; display strings; what a buffer holds
-- after an error; claims that interleave with those of another thread.
pub mod Prelude
pub mod Tlv8
pub mod Opack
pub mod Chacha
pub mod Companion
pub mod Core
pub mod Raop
pub mod Mrp
pub mod Dns
