-- ===== src/LogSystem/Buffer/Content.antt =====
-- What a buffer holds, and that each operation keeps it: AsyncBuffer.hpp.
use kama_asyn_log_system_clo.Base.{
  ℕ, ◌+◌, ◌-◌, ◌≤◌, ◌<◌, ◌≡◌, ◌↔◌, refl, sym, ap, ap₂, subst, ◌∙◌, true, [], ◌∷◌, ◌++◌, some, arith,
  Bytes, length, take, drop, replicate, length-append, length-take, length-drop, length-replicate,
  take-append_le, take-append_add, take_all, take-take_le, take-drop, drop-append_le, ==_iff, leb,
  Bool-cases, inl, inr,
}
use kama_asyn_log_system_clo.LogSystem.Buffer.{
  Conf, Buffer, size_mod, resize, writeable_size, readable_size, content, grown_size, to_be_enough,
  write, push, reset, is_empty,
}

pub record IsValid (b : Buffer) : Type 0 where
  pub ordered : b.read_pos ≤ b.write_pos
  pub inside : b.write_pos ≤ length b.buffer
  pub small : length b.buffer < size_mod

pub readable_size_lem : {b : Buffer} → IsValid b → readable_size b ≡ b.write_pos - b.read_pos
unfolding readable_size
readable_size_lem v = omega arith

pub writeable_size_lem : {b : Buffer} → IsValid b → writeable_size b ≡ length b.buffer - b.write_pos
unfolding writeable_size
writeable_size_lem v = omega arith

-- A valid buffer holds the bytes between its two positions.
pub content-drop-take :
    {b : Buffer} → IsValid b → content b ≡ drop b.read_pos (take b.write_pos b.buffer)
unfolding content
content-drop-take {b} v = rw (readable_size_lem v) (take-drop b.read_pos b.write_pos b.buffer)

pub length-content : {b : Buffer} → IsValid b → length (content b) ≡ b.write_pos - b.read_pos
length-content {b} v = rw (content-drop-take v) (
    omega (
      arith,
      length-drop b.read_pos (take b.write_pos b.buffer),
      length-take b.write_pos b.buffer,
      v.ordered,
      v.inside,
    ))

-- `IsEmpty` tells exactly when nothing is held.
pub is_empty-content : {b : Buffer} → IsValid b → (is_empty b ≡ true) ↔ (content b ≡ [])
unfolding is_empty
is_empty-content {b} v = (
  λ e. nil_of_length (content b) (omega (arith, length-content v, (==_iff _ _).0 e)),
  λ e. (==_iff _ _).1 (omega (arith, ap length e, length-content v, v.ordered)),
)
  where
    nil_of_length : (xs : Bytes) → length xs ≡ 0 → xs ≡ []
    nil_of_length [] h = refl
    nil_of_length (x ∷ xs) h = absurd (omega arith)

pub length-resize : (xs : Bytes) (n : ℕ) → length (resize xs n) ≡ n
unfolding resize
length-resize xs n = omega (
  arith,
  length-append (take n xs) (replicate (n - length xs) 0),
  length-take n xs,
  length-replicate {A = ℕ} (n - length xs) 0,
)

-- A resize keeps what stands before the new end.
pub take-resize :
    (k : ℕ) (xs : Bytes) (n : ℕ) → k ≤ n → k ≤ length xs → take k (resize xs n) ≡ take k xs
unfolding resize
take-resize k xs n h l =
    take-append_le k (take n xs) _ (omega (arith, length-take n xs)) ∙ take-take_le k n xs h

-- The storage after a write of `bytes` at `w`.
abbrev overwrite : Bytes → ℕ → Bytes → Bytes
overwrite xs w bytes = take w xs ++ (bytes ++ drop (w + length bytes) xs)

length-overwrite :
    (xs : Bytes) (w : ℕ) (bytes : Bytes)
    → w + length bytes ≤ length xs
    → length (overwrite xs w bytes) ≡ length xs
length-overwrite xs w bytes h = omega (
  arith,
  length-append (take w xs) (bytes ++ drop (w + length bytes) xs),
  length-append bytes (drop (w + length bytes) xs),
  length-take w xs,
  length-drop (w + length bytes) xs,
)

take-overwrite :
    (xs : Bytes) (w : ℕ) (bytes : Bytes)
    → w + length bytes ≤ length xs
    → take (w + length bytes) (overwrite xs w bytes) ≡ take w xs ++ bytes
take-overwrite xs w bytes h =
    take-append_add (take w xs) (bytes ++ rest) w (length bytes) (omega (arith, length-take w xs))
    ∙ ap (λ r. take w xs ++ r)
        (take-append_le (length bytes) bytes rest (omega arith)
          ∙ take_all (length bytes) bytes (omega arith))
  where
    rest : Bytes
    rest = drop (w + length bytes) xs

-- Where the write fits, what is held grows by exactly the bytes written.
pub overwrite-content :
    (b : Buffer) (bytes : Bytes)
    → b.read_pos ≤ b.write_pos
    → length b.buffer < size_mod
    → b.write_pos + length bytes ≤ length b.buffer
    → let b' = record b {
      buffer = overwrite b.buffer b.write_pos bytes;
      write_pos = b.write_pos + length bytes;
    } in
      IsValid b' × (content b' ≡ drop b.read_pos (take b.write_pos b.buffer) ++ bytes)
overwrite-content b bytes o s h = (v, held)
  where
    b' : Buffer
    b' = record b {
      buffer = overwrite b.buffer b.write_pos bytes;
      write_pos = b.write_pos + length bytes;
    }

    v : IsValid b'
    v = record {
      ordered = omega arith;
      inside = omega (arith, length-overwrite b.buffer b.write_pos bytes h);
      small = omega (arith, length-overwrite b.buffer b.write_pos bytes h);
    }

    held : content b' ≡ drop b.read_pos (take b.write_pos b.buffer) ++ bytes
    held =
        content-drop-take v
        ∙ ap (drop b.read_pos) (take-overwrite b.buffer b.write_pos bytes h)
        ∙ drop-append_le b.read_pos (take b.write_pos b.buffer) bytes
            (omega (arith, length-take b.write_pos b.buffer))

-- A write that does not fault is the write above.
pub write-eq-some :
    (b : Buffer) {b' : Buffer} (bytes : Bytes)
    → write b bytes ≡ some b'
    → (b.write_pos + length bytes ≤ length b.buffer)
      × (b' ≡ record b {
        buffer = overwrite b.buffer b.write_pos bytes;
        write_pos = b.write_pos + length bytes;
      })
unfolding write
write-eq-some b bytes h = ground arith

grown_size-lt : (conf : Conf) (size : ℕ) → grown_size conf size < size_mod
unfolding grown_size
grown_size-lt conf size = ground arith

-- `ToBeEnough` moves neither position; where the write behind it fits, it keeps what is held.
record Grown (b t : Buffer) : Type 0 where
  read_pos : t.read_pos ≡ b.read_pos
  write_pos : t.write_pos ≡ b.write_pos
  small : length t.buffer < size_mod
  kept : b.write_pos ≤ length t.buffer → take b.write_pos t.buffer ≡ take b.write_pos b.buffer

to_be_enough-Grown :
    (conf : Conf) (b : Buffer) (len : ℕ) → IsValid b → Grown b (to_be_enough conf b len)
unfolding to_be_enough
to_be_enough-Grown conf b len v = elim (Bool-cases (leb (writeable_size b) len)) [
  | inl e ↦ rw e (record {
    read_pos = refl;
    write_pos = refl;
    small = omega (arith, length-resize b.buffer grown, grown_size-lt conf (length b.buffer));
    kept = λ h.
        take-resize b.write_pos b.buffer grown (omega (arith, length-resize b.buffer grown))
          v.inside;
  })
  | inr e ↦ rw e (record { read_pos = refl; write_pos = refl; small = v.small; kept = λ _. refl })
]
  where
    grown : ℕ
    grown = grown_size conf (length b.buffer)

-- A push that does not write behind the storage keeps the buffer valid and puts the new bytes
-- behind those that it held; this holds whether and however the storage was resized.
pub push-content :
    (conf : Conf) {b b' : Buffer} (bytes : Bytes)
    → IsValid b
    → push conf b bytes ≡ some b'
    → IsValid b' × (content b' ≡ content b ++ bytes)
unfolding push
push-content conf {b} {b'} bytes v h =
    subst (λ (r : Buffer). IsValid r × (content r ≡ content b ++ bytes)) (sym same) (valid, text)
  where
    t : Buffer
    t = to_be_enough conf b (length bytes)

    g : Grown b t
    g = to_be_enough-Grown conf b (length bytes) v

    fits : t.write_pos + length bytes ≤ length t.buffer
    fits = (write-eq-some t bytes h).0

    written : Buffer
    written = record t {
      buffer = overwrite t.buffer t.write_pos bytes;
      write_pos = t.write_pos + length bytes;
    }

    same : b' ≡ written
    same = (write-eq-some t bytes h).1

    valid : IsValid written
    valid = (overwrite-content t bytes (omega (arith, g, v)) g.small fits).0

    text : content written ≡ content b ++ bytes
    text =
        (overwrite-content t bytes (omega (arith, g, v)) g.small fits).1
        ∙ ap₂ (λ i xs. drop i xs ++ bytes) g.read_pos
            (ap (λ k. take k t.buffer) g.write_pos ∙ g.kept (omega (arith, g, fits)))
        ∙ ap (λ xs. xs ++ bytes) (sym (content-drop-take v))

-- Resetting empties a valid buffer and keeps its storage.
pub reset-content :
    {b : Buffer}
    → IsValid b
    → IsValid (reset b) × (content (reset b) ≡ []) × ((reset b).buffer ≡ b.buffer)
unfolding reset content readable_size
reset-content v = (ground arith, refl, refl)
