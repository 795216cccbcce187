-- ===== src/Lib.antt =====
-- A model of the parts of yclib that hold data: lists, pools, search trees, byte orders, the
-- transport stream and flash video formats, the RTMP protocol, and what HTTP reads. Everything is translated from the C code; each file says
-- which code it is about, and functions keep their names without the prefixes rns_, rbt_ and flv_.
--
-- How the parts stand to each other. lib_src/util/list_head.h threads circular lists through the
-- structures of all other parts. lib_src/util/rns_mpool.c keeps the free blocks of a pool in such a
-- list, and lib_src/db/rns_dbpool.c its connections. lib_src/util/rns_rbt.c is a search tree of names or
-- numbers, with a map from names to values (rns_ctx) on top. lib_src/util/rns_network.c converts byte
-- orders and hexadecimal text, and lib_src/media/flv.c and lib_src/transport/rns_rtmp.c write their
-- numbers with it. An RTMP connection queues what it sends in such a list, finds its chunk streams in
-- such a tree, and reads chunks by a state machine. lib_src/media/ts.c looks for packets in a transport stream and reads its tables,
-- whose entries it keeps in lists.
--
--   Base      what the modules share: native numbers, machine words with their wrap written out,
--             reads of a buffer, bit operations as arithmetic (Bits) and facts about all 256 bytes
--   Links     list_head.h over a heap of links, with NULL as address 0. Chain and Ring say what a
--             well-formed list is; Ring, Remove and Walk say what the operations do
--   Mpool     rns_mpool.c: init, alloc and free over the heap of Links. Layout is the invariant
--   Rbt       the walks of rns_rbt.c: insert, search, lsearch and gsearch, for both kinds of keys over
--             one Order (Keys)
--   Context   rns_ctx_create, add, get and destroy: Lookup is the map, Failing the want of memory,
--             Destroy the end
--   Network   rns_network.c: rns_btoh*, rns_htob*, rns_ltoh*, rns_htol* of 16 to 64 bits, rns_hex2dec
--             and, in Address, rns_ip_type
--   Ts        ts.c: Ts has the tests of a packet and the searches, Tables the two tables, Seek the
--             searches that read the tables first; the other files prove
--   Flv       flv.c: Flv has the headers, Tag is flv_read_tag, Emit is flv_write_tag; Headers, Reading
--             and Writing prove, the last two by the rounds of ReadRounds and WriteRounds
--   DbPool    rns_dbpool_get and rns_dbpool_free of lib_src/db/rns_dbpool.c over Links
--   Rtmp      lib_src/transport/rns_rtmp.c. Amf has the values of script data (sd_*), with Encoding
--             for their bytes; Chunk is rtmp_chunk_write, Layout what it writes; Connection is the
--             queue, the control messages and rtmp_data_send; Incoming is rtmp_msg_parse and Parse
--             rtmp_parse, a function for each state; Replies has the rtmp_resp_ functions,
--             Building the values that they build, and Commands rtmp_command_parse with the commands
--             that touch no stream. Media is rtmp_msg_send with the headers that it writes, Payload
--             rtmp_msg_payload, which stores a message in the blocks of its stream and serves the
--             players by rtmp_msg_send; the other files prove
--   Http      lib_src/transport/rns_http.c and lib_src/util/rns_memory.c: rns_http_url_create,
--             rns_hconn_header_range and rns_split_key_value. Text has the functions of C on texts,
--             Parts and Fields prove. Info has the data of rns_http_info_read, with FirstLine, Fields
--             and Reader for its states and its loop; Places, Line, Ordering, Headers and Requests
--             prove
--   Hash      rns_hash_str of lib_src/util/rns_hash.c
--
-- Conventions. A uint32_t is a native number, and where it can wrap the remainder by 2 ^ 32 is written.
-- A pointer into a buffer is an offset into the list of its bytes, or the list of the bytes from it on.
-- `none` is an access that C leaves undefined: outside the buffer or through NULL. A result that may be
-- NULL is an Option inside. Whether an allocation succeeds is an argument: in Rtmp.Amf a function of the
-- place and of the bytes that are left, elsewhere the list of the outcomes to come.
--
-- Bounds and fuel. The loops of list_head.h run on rounds, and a ring needs one round more than it has
-- nodes. The searches of ts.c take the distance of their pointers, which bounds the packets between
-- them; the loop over the streams of a program takes the length of the section. The two state machines
-- of flv.c need seven rounds for a tag without a filter, that of a chunk header nine. find_ts_by_pcr
-- takes its rounds as an argument. Reading a script data value takes five units of fuel for each byte,
-- rtmp_data_send and rtmp_msg_send a round for each byte and one more, rtmp_parse nine rounds for a
-- header, rns_http_info_read one for each header of a request and four, and rtmp_msg_payload three for its states and, inside, one more than it stores bytes.
--
-- Parameters. The balancing of the tree (rbt_insert_color, rbt_erase) is the Linux kernel's and not
-- modelled: the theorems ask of it that it keeps the order of the nodes. A node's allocation in
-- rns_ctx_add is an address that is 0 or unused, and whether the key can be copied an argument. The handlers of commands, data messages and media, which
-- rtmp_msg_parse calls, are given there by what they take and how they change the connection, and the bytes
-- of the uninitialised arrays of rtmp_send_S1 and rns_http_url_create are arguments. The trees of arguments and
-- headers of rns_http_info_read are given by their items in order. The representation of a number as a double
-- and its conversion back are arguments, as are rtmp_datamsg_send in rtmp_resp_play and the commands
-- connect, play, deleteStream, closeStream and publish in rtmp_command_parse. rns_mpool_alloc is in Payload
-- the number of blocks that a pool still hands out, and a stream is in hand instead of a pointer to it.
--
-- Not modelled: the rest of the network and protocol code (the RTMP commands that start and end
-- streams, and the connections and answers of HTTP), files, threads, the event loop, the database client, logging, the servers under src/, and
-- flv_read_file, flv_write_file and flv_write_metadata. Colours and parent links of tree nodes and the
-- freeing of memory are left out. Sockets and threads are calls of the system; the rest is planned.
pub mod Base
pub mod Network
pub mod Links
pub mod Mpool
pub mod Rbt
pub mod Context
pub mod Ts
pub mod Flv
pub mod DbPool
pub mod Rtmp
pub mod Http
pub mod Hash
