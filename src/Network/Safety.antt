-- ===== src/Network/Safety.antt =====
-- handleFrame of src/libc/network.cpp and all that it calls: the bytes that are read, and what is kept.
use mr_hak_os.Prelude.{[], ◌∷◌, zero, suc, refl, zero, suc, refl, [], ◌∷◌}
