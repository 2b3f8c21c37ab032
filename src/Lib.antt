-- ===== src/Lib.antt =====
-- A model of the MrHakOS kernel's libraries, with the theorems that make them correct.
--
-- Parts of the program and the files that model them:
--   CString     src/libc/string.cpp: strlen, strcmp, memset and memcpy on lists of bytes. The other
--               parts call these.
--   FileSystem  src/libc/filesystem.cpp and include/filesystem.hpp. FileSystem.antt has init, mkdir,
--               cd and createHakFile; Pool the bump allocator behind `operator new`; Entry the
--               entry type, initEntry and hasExtension; State the object and findEntry; Transfer cp
--               and mv; Read readHakFile and getCurrentPath, with the writing of a path in Path. The
--               heap is the list of the entries that `new FileSystemEntry` has returned, and a
--               pointer is a place in it, so that aliasing is equality of places. The result
--               `none` is a fault (a null or dangling pointer is followed, an array is read past
--               its end); `some (false, fs)` is the C++ result false. Valid states what a
--               well-formed heap is; Names, Lookup, Growth, NewEntry and Contents are lemmas;
--               Preserve and its children, History, RoundTrip, CreateRead, Capacity, LongNames,
--               NoContent and PathBounds prove.
--   Keyboard    src/libc/interrupts.cpp: the key queue, the scancode decoder with its tables, the
--               handler of IRQ1 and pollKeyboard. The bytes that the ports answer are arguments
--               (Port). Queue relates the ring to a bounded queue, Decode and Layout the decoder to the
--               key of a US keyboard that a scancode stands for, Sharing the handler and the poller,
--               Desk all of it to an abstract keyboard.
--   Interrupts  src/libc/interrupts.cpp: the gates of the 64-bit table and pitSleepMs.
--   Vga         src/libc/vga.cpp: the console in text mode and on a framebuffer. Cells has the loops
--               over the grid, Font the glyphs and the palette, Glyph the rectangles and stores of
--               a drawn character; what reaches the hardware is a log of commands. A store outside
--               a grid makes its list longer, so that a lost bound shows in the length. Console,
--               Printing, Scroll, Panel, Blit and Drawing prove.
--   Pci         src/libc/pci.cpp: the configuration space, as a function of the address that is written
--               to port 0xCF8, and the search for a device or a class.
--   Crypto      src/libc/crypto.cpp: SHA-256, HMAC-SHA-256 and SHA-1. Words has the word functions, Stream
--               the buffering that the hashes share, Digest the functions that callers use. Aes has
--               AES-128 with its streaming counter mode, Gcm GHASH and AES-128-GCM; Xor, Keystream,
--               Counter, Equal and Sealed prove.
--   Network     src/libc/network.cpp. Network.antt has the ARP cache, the next hop and the Internet
--               checksums, State the object `Network` as far as received packets change it. Receive
--               has handleFrame, handleArp, handleIpv4 and handleUdp, Segment handleTcp, Replies
--               handleDnsResponse and handleDhcpResponse, Stream the receive buffer with tcpCompact,
--               Session tcpStreamRead behind its wait. A pointer with a length is the list of the bytes
--               that may be read (Packet), and the result `none` is a read behind them. What a handler
--               sends is put on a list. An acknowledgement for which sendTcpPacket would first have to
--               ask for a MAC address is `none` too: the poll inside it hands the same frame to
--               handleFrame again, without end (Segment). Valid states what a well-formed object is, Session and Sequence what a stream and a course of events
--               are. Address has formatIp and parseIp. Responses, Lease, Connection, Safety, Window,
--               Delivery, InOrder, Reading, Complete, Printed, Answer, Arp and Route prove.
--   Terminal    src/libc/terminal.cpp. Line has the input line and its edits, Editor handleChar with what
--               it calls, the history and the drawing on the Vga, of which Typing gives the meaning;
--               Editing, Edited, Inserted, Copying, Commands, Rows, Remembered, Keys and Pressed prove. Also
--               parseTlsRecord, textContains and the hexadecimal printers, and in Decimal u32ToDec and
--               parsePort16, of which Ports proves.
--   Memory      src/libc/memory.cpp: the page arithmetic and the status on x86_64.
--   Prelude     the shared names: native numbers, lists measured by them, Boolean tests, integers.
--
-- The build. Where the 32-bit and the x86_64 build differ, the model is of the x86_64 build: the size of a file
-- system entry, the gates, the pages. What it says of the number of entries is of that build.
--
-- Numbers. Sizes and indices are natural numbers; a counter or a word of 32 or 64 bits wraps with
-- % 2 ^ 32 or % 2 ^ 64. Sums of the pool stay below 8192 and need no wrapping. A `char` is a byte. Signed
-- coordinates are the integers of Prelude/Int; where the clipping of a rectangle overflows an `int`,
-- there is no result.
--
-- Loops are structural: over a text, or over a number of rounds that the loop itself has (16 answers of
-- the keyboard port, 8 levels of a path, the cells of the grid, the rounds of a hash). Four loops have
-- fuel: the folding of carries in a checksum, with 3 rounds, since a 32-bit sum folds twice at most,
-- pitSleepMs, with one round more than the limit of its guard, and the labels of a DNS name and the
-- options of a DHCP message, with one round more than the message has bytes, since every round passes
-- one.
--
-- Not modelled: the drivers of the network and the requests that it builds, the DHCP client, SOCKS5,
-- TLS, Tor, the commands of the terminal and its main loop, the rest of the cryptography, the boot code
-- and the assembly, the serial port, and the debug writes that the file system does to video memory. Of
-- the console the getters are left out, and of the file system `ls`, whose loop has no effect.
pub mod CString
pub mod Crypto
pub mod FileSystem
pub mod Interrupts
pub mod Keyboard
pub mod Memory
pub mod Network
pub mod Pci
pub mod Prelude
pub mod Terminal
pub mod Vga
