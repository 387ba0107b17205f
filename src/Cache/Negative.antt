-- ===== src/Cache/Negative.antt =====
-- What a negative length does to `read` of RPC_util/buffer.cc.
use cpp_rpc.Prelude.{◌+◌, ◌-◌, ◌≤◌, ◌<◌, ◌^◌, ◌≡◌, none, ◌>>=◌, false, arith}
use cpp_rpc.Buffer.{Buffer}
use cpp_rpc.Buffer.Laws.{memcpy_fault}
use cpp_rpc.Cache.{Cache, is_empty, clip, copy_out, read, read_clipped}
use cpp_rpc.Cache.Inv.{IsValid, size_lem, held-le-capacity}

module _ {c : Cache} (v : IsValid c) (buf : Buffer) (low : 2 ^ 31 ≤ buf.length)
    (word : buf.length < 2 ^ 32) where
  clip_negative : clip c buf ≡ buf
  unfolding clip
  clip_negative = ground (arith, size_lem v, held-le-capacity v)

  copy_out_negative : copy_out c buf ≡ none
  unfolding copy_out
  copy_out_negative =
      ground
        (arith, memcpy_fault buf.bytes 0 c.buffer.bytes c.head (buf.length + (2 ^ 64 - 2 ^ 32)))

  -- A negative length passes every test of `read`, and the copy of a non-empty cache then leaves the
  -- block: a fault.
  pub read_negative : is_empty c ≡ false → read c buf ≡ none
  unfolding read read_clipped
  read_negative ne = rw (clip_negative, ne, copy_out_negative, ◌>>=◌)
