-- ===== src/LogSystem/Buffer/Tests.antt =====
-- Runs of AsyncBuffer.hpp at small inputs.
use kama_asyn_log_system_clo.Base.{codes, replicate, ◌≡◌, refl, none, some, [], ◌∷◌, ◌++◌, arith}
use kama_asyn_log_system_clo.LogSystem.Buffer.{
  Conf, Buffer, init, push, content, grown_size, move_read_pos,
}
use kama_asyn_log_system_clo.LogSystem.Buffer.Content.{IsValid, push-content}
use kama_asyn_log_system_clo.LogSystem.Buffer.Growth.{push_overflows}

abbrev conf : Conf
conf = record { buffer_size = 4; threshold = 10; linear_growth = 5 }

abbrev fresh : Buffer
fresh = record { buffer = 0 ∷ 0 ∷ 0 ∷ 0 ∷ []; write_pos = 0; read_pos = 0 }

-- Two of the bytes that "abc" left have been read.
abbrev part_read : Buffer
part_read = record { buffer = codes "abc" ++ (0 ∷ []); write_pos = 3; read_pos = 2 }

-- One byte fills `part_read` up: the storage trebles.
abbrev filled : Buffer
filled = record { buffer = codes "abcd" ++ replicate 8 0; write_pos = 4; read_pos = 2 }

init_lem : init conf ≡ fresh
unfolding init
init_lem = refl

fresh-IsValid : IsValid fresh
fresh-IsValid = omega arith

part_read-IsValid : IsValid part_read
part_read-IsValid = omega arith

push-part_read : push conf part_read (codes "d") ≡ some filled
unfolding push grown_size
push-part_read = refl

-- The `assert` of `MoveReadPos`.
move_read_pos_refused : move_read_pos part_read 2 ≡ none
unfolding move_read_pos
move_read_pos_refused = refl

push-content_example : IsValid filled × (content filled ≡ content part_read ++ codes "d")
push-content_example = push-content conf (codes "d") part_read-IsValid push-part_read

push_overflows_example : push conf fresh (replicate 13 7) ≡ none
push_overflows_example =
    push_overflows conf (replicate 13 7) fresh-IsValid (omega arith) (omega arith) (omega arith)

-- The shipped config.conf, whose threshold lies above 4 GiB.
abbrev shipped : Conf
shipped = record { buffer_size = 10000000; threshold = 10000000000; linear_growth = 10000000 }
