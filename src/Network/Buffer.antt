-- ===== src/Network/Buffer.antt =====
-- `Buffer` of src/network/include/Buffer.h and src/network/Buffer.cpp.
use my_network_library.Prelude.{ℕ, [], ◌++◌, length}
use my_network_library.Prelude.Text.{Text, before}

-- the bytes of a character array up to its first zero byte
unfoldable pub c_string : Text → Text
unfolding before
c_string t = before 0 t

-- `Append(const char*, int)`, which stops at a zero byte
unfoldable pub append_bytes : Text → Text → Text
unfolding c_string
append_bytes buf bytes = buf ++ c_string bytes

unfoldable pub append : Text → Text → Text
append buf str = buf ++ str

unfoldable pub size : Text → ℕ
size buf = length buf

-- `ToStr`, as the functions that take a `const char*` read it
unfoldable pub to_str : Text → Text
unfolding c_string
to_str buf = c_string buf

unfoldable pub clear : Text → Text
clear buf = []

unfoldable pub set_buf : Text → Text → Text
unfolding c_string
set_buf buf str = c_string str
