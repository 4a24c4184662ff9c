-- ===== src/LogSystem/Buffer.antt =====
-- log_system/logs_code/AsyncBuffer.hpp: the byte buffer between the producers and the log thread.
pub mod Content
pub mod Growth
mod Tests
use kama_asyn_log_system_clo.Base.{
  ℕ, ◌+◌, ◌-◌, ◌*◌, ◌%◌, ◌^◌, Bool, List, ◌++◌, Option, none, some, Bytes, length, take, drop,
  replicate, ltb, leb, ◌==◌, if◌then◌else◌,
}

-- The fields of `mylog::Util::JsonData` that the buffer reads through `g_conf_data`.
pub record Conf : Type 0 where
  pub buffer_size : ℕ
  pub threshold : ℕ
  pub linear_growth : ℕ

pub record Buffer : Type 0 where
  pub buffer : Bytes
  pub write_pos : ℕ
  pub read_pos : ℕ

abbrev pub size_mod : ℕ
size_mod = 2 ^ 64

-- `vector::resize`: cut off, or filled up with zeros.
unfoldable pub resize : Bytes → ℕ → Bytes
resize xs n = take n xs ++ replicate (n - length xs) 0

-- The constructor.
unfoldable pub init : Conf → Buffer
unfolding resize
init conf = record { buffer = resize List.[] conf.buffer_size; write_pos = 0; read_pos = 0 }

-- `size_t` subtraction wraps.
unfoldable pub writeable_size : Buffer → ℕ
writeable_size b = (size_mod + length b.buffer - b.write_pos) % size_mod

unfoldable pub readable_size : Buffer → ℕ
readable_size b = (size_mod + b.write_pos - b.read_pos) % size_mod

unfoldable pub is_empty : Buffer → Bool
is_empty b = b.write_pos == b.read_pos

-- `a.Swap(b)`: the three members change places.
unfoldable pub swap : Buffer → Buffer → Buffer × Buffer
swap a b = (b, a)

-- What `Begin()` and `ReadableSize()` hand to a reader.
unfoldable pub content : Buffer → Bytes
unfolding readable_size
content b = take (readable_size b) (drop b.read_pos b.buffer)

-- `none` is a failed `assert`; the arguments are not negative.
unfoldable pub move_write_pos : Buffer → ℕ → Option Buffer
unfolding writeable_size
move_write_pos b len =
    if leb len (writeable_size b) then some (record b { write_pos = b.write_pos + len }) else none

unfoldable pub move_read_pos : Buffer → ℕ → Option Buffer
unfolding readable_size
move_read_pos b len =
    if leb len (readable_size b) then some (record b { read_pos = b.read_pos + len }) else none

unfoldable pub reset : Buffer → Buffer
reset b = record b { write_pos = 0; read_pos = 0 }

-- `int buffersize = buffer_.size()`, read back as a `size_t` where it is added to one: the low 32
-- bits, with the sign bit copied upwards.
unfoldable pub int_of_size : ℕ → ℕ
int_of_size n = let low = n % 2 ^ 32 in if ltb low (2 ^ 31) then low else size_mod - 2 ^ 32 + low

-- The size that `ToBeEnough` resizes to.
unfoldable pub grown_size : Conf → ℕ → ℕ
unfolding int_of_size
grown_size conf size =
    if ltb size conf.threshold
    then (2 * size + int_of_size size) % size_mod
    else (conf.linear_growth + int_of_size size) % size_mod

-- `ToBeEnough(len)`: one resize if `len` does not leave room to spare.
unfoldable pub to_be_enough : Conf → Buffer → ℕ → Buffer
unfolding writeable_size resize
to_be_enough conf b len =
    if leb (writeable_size b) len
    then record b { buffer = resize b.buffer (grown_size conf (length b.buffer)) }
    else b

-- `std::copy` to `&buffer_[write_pos_]`; `none` is a write behind the end of the storage.
unfoldable pub write : Buffer → Bytes → Option Buffer
write b bytes =
    if leb (b.write_pos + length bytes) (length b.buffer)
    then some (record b {
      buffer = take b.write_pos b.buffer ++ (bytes ++ drop (b.write_pos + length bytes) b.buffer);
      write_pos = b.write_pos + length bytes;
    })
    else none

unfoldable pub push : Conf → Buffer → Bytes → Option Buffer
unfolding to_be_enough write
push conf b bytes = write (to_be_enough conf b (length bytes)) bytes
