-- ===== src/Lib.antt =====
-- pcap-server: models of the program's own logic in backend/, with the theorems about them.
--
-- pcap-server takes packet captures on remote hosts over SSH, stores them sealed, and hands them
-- out as they are or sanitized. This library models the parts of backend/ that are the program's
-- own logic over bytes, lists and dicts, and states what makes each of them correct.
--
-- The parts and where they stand:
--
-- - The frame walker, backend/framewalk.py. `walk(frame, linktype)` finds every address of a
--   frame, every checksum with what it covers, and where the payload begins. Framewalk.antt has
--   the layout (`Layout`, `Scope`), the outcome of a method and the helpers of the class _Walker;
--   Framewalk/Transport.antt has its methods nd_options, tcp, udp, icmp, icmpv6, gre and
--   transport, Framewalk/Network.antt has arp, ipv4 and ipv6, Framewalk/Link.antt has raw_ip,
--   mpls, pppoe, ethertype, ethernet, sll, sll2 and loopback, and Framewalk/Walk.antt has link
--   and walk. A method is a function of the frame and the layout so far; the methods that a
--   method calls one level deeper are its argument `descend`. Framewalk/Invariant.antt is the
--   invariant of a layout and the files named Sound.antt and Leaves.antt are about each method
--   under it.
-- - The checksum refresh, the functions _ones_sum and refresh_checksums of the same file:
--   Framewalk/Checksum.antt. It takes the scopes that the walker found, the original frame and
--   the edited one. Framewalk/Checksum/Rfc1624.antt has the arithmetic of one round, Refresh.antt
--   the loop, Receiver.antt has what a receiver sums over the 16-bit words of a frame, and
--   Walked.antt puts it together with the walker.
-- - The envelope encryption, backend/crypto.py: Crypto.antt, with header_for_dek, unwrap_dek,
--   seal_chunks, seal_bytes, open_stream and open_bytes of the class Cryptor, and the class
--   Sealer. A file is a list of bytes. A generator that may raise is the list of what it yields
--   with its ending.
-- - The rekeying of sealed files, backend/rekey.py: Rekey.antt, with rekey_file on the envelope
--   model, and Rekey/Run.antt, with rekey_all. The errors of the file system are outside, and so
--   are _targets, the choice of key material and the command line.
-- - The stand-ins for addresses and names, backend/anonymize.py: Anonymize.antt with
--   PrefixPreservingMap, Anonymize/Mapper.antt with AddressMapper and Anonymize/Names.antt with
--   Pseudonyms. A method that fills a cache returns the object with the cache filled.
-- - The sanitizer, backend/sanitizer.py. Sanitizer/Reader.antt has _PcapReader over the chunks of
--   a capture (Reader/Chunking.antt, Whole.antt and Parse.antt compare it with parsing all the
--   bytes at once, Print.antt is about bytes written), Sanitizer/Tshark.antt has _TsharkPass over
--   the packets that tshark printed, Sanitizer/Rules.antt and Catalog.antt have RULES,
--   tshark_plan and _read_catalog, Sanitizer/Fields.antt has _collect_fields and _locate on the
--   values of json.loads, Sanitizer/Masks.antt and Names.antt have the replacements,
--   Sanitizer/Summary.antt has SanitizeSummary, Sanitizer/Conditions.antt has what is read of a
--   packet and which rules apply, and Sanitizer/Rewriter.antt has _FrameRewriter, with the
--   walker, the checksum refresh and the stand-ins of the other parts, and Sanitizer/Stream.antt
--   has the loop of stream_sanitized_pcap that puts them together. Sanitizer/Drain.antt has
--   _drain and check_capture, and Sanitizer/Texts.antt has what these use of Python's str and
--   bytes.
-- - The vault, backend/vault.py with the key sources of backend/crypto.py: Vault.antt, with the
--   startup policy and unlock of CaptureVault, and Vault/Migration.antt, with a round of
--   migrate_plaintext, over the sealing and opening of Crypto.antt. backend/main.py starts it,
--   migrates, and lets an administrator unlock it.
-- - The filter check, backend/bpf.py: Bpf.antt, with _Alternative, _Constraint, _holds,
--   _satisfiable, _pairwise_disjoint and the verdict of structural_check, and Bpf/Tokens.antt and
--   Bpf/Parse.antt, with what leads from the text of a filter to its constraints: _tokenize,
--   _split_top_level, _strip_parens, _parse_alternative, _collect and _parse_constraints.
--   Bpf/Parse/PortTerms.antt says what a port term means by its words.
-- - The rate limiters, backend/auth.py: Limiters.antt, with every method of RateLimiter and
--   SlidingWindowLimiter. backend/main.py calls them on each sign-in and each throttled request,
--   and their prune periodically.
--
-- Prelude.antt passes on the library names that the parts share and its own lists, bytes, bit
-- operations and dicts, all over the native numbers.
--
-- Outside and so parameters or arguments: AES-GCM (the record `Aead`, whose laws are the length
-- of a ciphertext, that decryption undoes encryption, and that only what was encrypted decrypts),
-- SHA-256 (a Cryptor is given its key's id), AES, HMAC and HKDF under the stand-ins (the record
-- `Primitives`, whose laws are the lengths of what they return, that it is bytes, and that ECB
-- takes block after block), str.lower beyond Latin-1 with its encoding, case mapping and the
-- ipaddress module's parser under the sanitizer (the record `PythonTexts`), what the key sources
-- use of Python, the key file, SHA-256 and scrypt (the record `Outside`), os.urandom (the nonces
-- and data keys are arguments) and time.monotonic (the time is an argument, in whole seconds).
--
-- Bounds and fuel: a walk goes `max_depth` levels down, as in the source; `descend` has one level
-- of fuel more, and each loop of a method has `suc (length f)` rounds for a frame `f`, in each of
-- which the source moves forward by at least a byte. Running out is an outcome of the model's
-- own. The key stream of a name has a round for each byte that is wanted, and a round adds 32.
-- `open_stream` has one round for each byte of the file and one more, and a round reads more than
-- a byte. `records` has a round for each byte of the capture and one more, and a round reads a
-- record's header. `_collect` has a round for each token of a filter and one more, and
-- _strip_parens one for each token. A name of labels has as many rounds as its segment has bytes.
-- Frames, files and times have no bound of their own. The errors of struct.pack above 2^32 bytes
-- in a chunk or 2^64 chunks in a file are left out.
--
-- Not modelled: backend/main.py, backend/models.py and backend/tls are routes, request validation
-- and the management of certificates around the frameworks they use; backend/database.py is SQL;
-- backend/ssh_manager.py, backend/capture.py, backend/packet_parser.py and backend/pcapsource.py
-- run tcpdump and tshark; backend/serve.py and backend/resetmfa.py are entry points; scripts/ and
-- frontend/ are tools and the browser's side. Of backend/sanitizer.py the processes are left out,
-- with _json_packets, which cuts the output of one into JSON texts, and install_secret and
-- capture_key, which read files and the vault. backend/localnet.py has logic of its own that is
-- not here, nor is the sign-in of backend/auth.py. Of backend/vault.py the salt in the database,
-- status, stored_path, source_for and derived_key are left out, as are the counters of
-- migrate_plaintext. Of backend/bpf.py the run of tcpdump in compile_check and the texts of the
-- warnings are left out, and digits beyond ASCII. A first value of `frame_raw` that is no string
-- is taken as disagreement, where the source compares its str().
pub mod Prelude
pub mod Framewalk
pub mod Crypto
pub mod Bpf
pub mod Limiters
pub mod Rekey
pub mod Vault
pub mod Anonymize
pub mod Sanitizer
