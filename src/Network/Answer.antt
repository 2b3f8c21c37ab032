-- ===== src/Network/Answer.antt =====
-- The ARP reply of src/libc/network.cpp, handled by the host that asked.
