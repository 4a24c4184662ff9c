-- ===== src/Storage/Multipart/Sizes.antt =====
-- The sizes of the chunks of a multipart upload.
use native.Mathlib.Nat.{mul-zero, mul-suc, mod-lt, div-add-mod}
use kama_asyn_log_system_clo.Base.{
  ℕ, zero, suc, ◌+◌, ◌-◌, ◌*◌, ◌%◌, ◌^◌, ◌≤◌, ◌<◌, ◌≡◌, sym, ap, subst, ◌∙◌, ◌≢◌, true, arith,
}
use kama_asyn_log_system_clo.Storage.Http.{UploadSession, Env}
use kama_asyn_log_system_clo.Storage.Multipart.{expected_size, chunks_needed, valid_init}

-- The sizes of the first `n` chunks together.
unfoldable pub sizes_sum : UploadSession → ℕ → ℕ
sizes_sum session zero = 0
sizes_sum session (suc n) = sizes_sum session n + expected_size session n

-- A session whose sizes fit: the chunks but the last are full, and the last is not empty.
pub record IsSized (session : UploadSession) : Type 0 where
  pub some_chunk : 1 ≤ session.total_chunks
  pub full : session.chunk_size * (session.total_chunks - 1) < session.total_size
  pub rest :
      session.total_size ≤ session.chunk_size * (session.total_chunks - 1) + session.chunk_size
  pub machine : session.total_size < 2 ^ 64

module _ (session : UploadSession) (z : IsSized session) where
  expected_size_full :
      (i : ℕ) → i ≢ session.total_chunks - 1 → expected_size session i ≡ session.chunk_size
  unfolding expected_size
  expected_size_full i h = ground arith

  expected_size_last :
      expected_size session (session.total_chunks - 1)
      ≡ session.total_size - session.chunk_size * (session.total_chunks - 1)
  unfolding expected_size
  expected_size_last = ground (arith, z.full, z.rest, z.machine)

  full_sum : (n : ℕ) → n ≤ session.total_chunks - 1 → sizes_sum session n ≡ session.chunk_size * n
  unfolding sizes_sum
  full_sum zero h = omega (arith, mul-zero session.chunk_size)
  full_sum (suc n) h = omega (
    arith,
    full_sum n (omega arith),
    expected_size_full n (λ e. omega arith),
    mul-suc session.chunk_size n,
  )

  -- What `Chunk` accepts for all chunks together is the whole file.
  pub sizes_sum_total : sizes_sum session session.total_chunks ≡ session.total_size
  sizes_sum_total =
      subst (λ n. sizes_sum session n ≡ session.total_size) last
        (unfold sizes_sum in
          omega
            (arith, z.full, full_sum (session.total_chunks - 1) (omega arith), expected_size_last))
    where
      last : suc (session.total_chunks - 1) ≡ session.total_chunks
      last = omega (arith, z.some_chunk)

-- The quotient is rounded up, and where the sum wraps around it is zero.
chunks_needed-bounds :
    (total_size chunk_size p : ℕ)
    → 1 ≤ total_size
    → 1 ≤ chunk_size
    → total_size < 2 ^ 64
    → chunk_size < 2 ^ 64
    → chunks_needed total_size chunk_size ≡ suc p
    → (chunk_size * p < total_size) × (total_size ≤ chunk_size * p + chunk_size)
unfolding chunks_needed
chunks_needed-bounds t c p ht hc mt mc e =
    let w = (t + c + (2 ^ 64 - 1)) % 2 ^ 64 in
    let d : c * suc p + w % c ≡ w = ap (λ q. c * q + w % c) (sym e) ∙ div-add-mod w c in
    (omega (arith, d, mul-suc c p), omega (arith, d, mul-suc c p, mod-lt w hc))

valid_init-tests :
    (env : Env) (session : UploadSession)
    → env.max_upload_size < 2 ^ 64
    → valid_init env session.filename session.total_size session.chunk_size session.total_chunks
      ≡ true
    → (1 ≤ session.total_chunks)
      × (1 ≤ session.total_size)
      × (1 ≤ session.chunk_size)
      × (session.total_size < 2 ^ 64)
      × (chunks_needed session.total_size session.chunk_size ≡ suc (session.total_chunks - 1))
unfolding valid_init
valid_init-tests env session m h = ground arith

-- Where the limit and the chunk size fit in 64 bits, `Init` accepts sizes only if the sizes that
-- `Chunk` asks for add up to the whole file, with no chunk empty and none but the last shorter
-- than the chunk size.
pub valid_init-IsSized :
    (env : Env) (session : UploadSession)
    → env.max_upload_size < 2 ^ 64
    → session.chunk_size < 2 ^ 64
    → valid_init env session.filename session.total_size session.chunk_size session.total_chunks
      ≡ true
    → IsSized session × (sizes_sum session session.total_chunks ≡ session.total_size)
valid_init-IsSized env session m mc h = (sized, sizes_sum_total session sized)
  where
    tests :
        (1 ≤ session.total_chunks)
        × (1 ≤ session.total_size)
        × (1 ≤ session.chunk_size)
        × (session.total_size < 2 ^ 64)
        × (chunks_needed session.total_size session.chunk_size ≡ suc (session.total_chunks - 1))
    tests = valid_init-tests env session m h

    bounds :
        (session.chunk_size * (session.total_chunks - 1) < session.total_size)
        × (session.total_size
            ≤ session.chunk_size * (session.total_chunks - 1) + session.chunk_size)
    bounds =
        chunks_needed-bounds session.total_size session.chunk_size (session.total_chunks - 1)
          tests.1 tests.2 tests.3 mc tests.4

    sized : IsSized session
    sized = record { some_chunk = tests.0; full = bounds.0; rest = bounds.1; machine = tests.3 }
