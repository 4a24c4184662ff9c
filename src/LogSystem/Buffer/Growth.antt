-- ===== src/LogSystem/Buffer/Growth.antt =====
-- When `Push` finds room, and when it writes behind the storage: `ToBeEnough` of AsyncBuffer.hpp.
use kama_asyn_log_system_clo.Base.{
  ℕ, ◌+◌, ◌-◌, ◌*◌, ◌%◌, ◌^◌, ◌≤◌, ◌<◌, ◌≡◌, ◌↔◌, ◌⊎◌, some, none, arith, Bytes, length, take, drop,
  ◌++◌, leb, if◌then◌else◌,
}
use kama_asyn_log_system_clo.LogSystem.Buffer.{
  Conf, Buffer, size_mod, writeable_size, grown_size, to_be_enough, write, push,
}
use kama_asyn_log_system_clo.LogSystem.Buffer.Content.{IsValid, writeable_size_lem, length-resize}

-- Below 2 GiB the detour through `int` loses nothing, and the storage trebles below the threshold.
pub grown_size_small :
    (conf : Conf) (size : ℕ)
    → size < 2 ^ 31
    → conf.linear_growth < 2 ^ 63
    → ((size < conf.threshold) × (grown_size conf size ≡ 3 * size))
      ⊎ ((conf.threshold ≤ size) × (grown_size conf size ≡ conf.linear_growth + size))
unfolding grown_size
grown_size_small conf size h l = ground arith

-- The size of the storage behind the one call of `ToBeEnough`.
abbrev pub size_after : Conf → Buffer → ℕ → ℕ
size_after conf b len =
    if leb (length b.buffer - b.write_pos) len
    then grown_size conf (length b.buffer)
    else length b.buffer

-- The size of the storage that a push of `len` bytes writes into.
pub length-to_be_enough :
    (conf : Conf) {b : Buffer} (len : ℕ)
    → IsValid b
    → length (to_be_enough conf b len).buffer ≡ size_after conf b len
unfolding to_be_enough
length-to_be_enough conf {b} len v =
    ground (arith, writeable_size_lem v, length-resize b.buffer (grown_size conf (length b.buffer)))

pub write_pos-to_be_enough :
    (conf : Conf) (b : Buffer) (len : ℕ) → (to_be_enough conf b len).write_pos ≡ b.write_pos
unfolding to_be_enough
write_pos-to_be_enough conf b len = ground arith

-- A push writes behind the storage exactly when the bytes reach past the end that one call of
-- `ToBeEnough` leaves: the storage is resized at most once, and not by what is wanted.
pub push-eq-none :
    (conf : Conf) {b : Buffer} (bytes : Bytes)
    → IsValid b
    → (push conf b bytes ≡ none) ↔ (size_after conf b (length bytes) < b.write_pos + length bytes)
unfolding push write
push-eq-none conf {b} bytes v = (
  λ h. ground (
    arith,
    length-to_be_enough conf (length bytes) v,
    write_pos-to_be_enough conf b (length bytes),
  ),
  λ h. ground (
    arith,
    length-to_be_enough conf (length bytes) v,
    write_pos-to_be_enough conf b (length bytes),
  ),
)

-- Bytes that fit in what is writeable are pushed with no fault while the storage is below 2 GiB;
-- this is what the producers' wait in `AsyncWorker::Push` makes sure of in safe mode.
pub push_fits :
    (conf : Conf) {b : Buffer} (bytes : Bytes)
    → IsValid b
    → length b.buffer < 2 ^ 31
    → conf.linear_growth < 2 ^ 63
    → length bytes ≤ writeable_size b
    → (b' : Buffer) × (push conf b bytes ≡ some b')
unfolding push write
push_fits conf {b} bytes v small lin fits =
    let t = to_be_enough conf b (length bytes) in
    (
      record t {
        buffer = take t.write_pos t.buffer ++ (bytes ++ drop (t.write_pos + length bytes) t.buffer);
        write_pos = t.write_pos + length bytes;
      },
      ground (
        arith,
        writeable_size_lem v,
        length-to_be_enough conf (length bytes) v,
        write_pos-to_be_enough conf b (length bytes),
        grown_size_small conf (length b.buffer) small lin,
      ),
    )

-- Let a buffer be valid, and its storage be below 2 GiB and below the threshold. A push of a record
-- longer than three times the storage writes behind its end.
pub push_overflows :
    (conf : Conf) {b : Buffer} (bytes : Bytes)
    → IsValid b
    → length b.buffer < 2 ^ 31
    → length b.buffer < conf.threshold
    → 3 * length b.buffer < length bytes
    → push conf b bytes ≡ none
unfolding grown_size
push_overflows conf {b} bytes v small below long = (push-eq-none conf bytes v).1 (ground arith)

-- From 4 GiB on the detour through `int` drops the high bits, and "growing" makes the storage
-- smaller.
pub grown_size_shrinks :
    (conf : Conf) (size : ℕ)
    → 2 ^ 32 ≤ size
    → size < size_mod
    → size % 2 ^ 32 < 2 ^ 31
    → conf.threshold ≤ size
    → conf.linear_growth < 2 ^ 31
    → grown_size conf size < size
unfolding grown_size
grown_size_shrinks conf size big _ low above lin = ground arith
